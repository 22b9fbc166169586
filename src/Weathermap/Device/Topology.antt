-- ===== src/Weathermap/Device/Topology.antt =====
-- weathermap/js/device.js: `updateTopologyData`, `updateLinkgroupData` and `destroy`.
use jaspy.Prelude.{
  ◌||◌, String, Option, none, some, List, [], ◌∷◌, ◌++◌, Dict, get, has, put, delete, if◌then◌else◌,
  ltb, ◌==◌, length,
}
use jaspy.Weathermap.Numbers.{Double}
use jaspy.Weathermap.Interface
use jaspy.Weathermap.Interface.{Ref, InterfaceData, Connection}
use jaspy.Weathermap.World.{World, modify, alloc, detach}
use jaspy.Weathermap.LinkGroup
use jaspy.Weathermap.LinkGroup.{LinkGroup, LinkUpdate}
use jaspy.Weathermap.Device.{Device}

pub record DeviceData : Type 0 where
  pub interfaces : Dict InterfaceData

-- `linkGroupUpdates`: for each neighbour, the data of the interfaces that lead to it, by the name
-- of the interface at the other end.
abbrev pub Updates : Type 0
Updates = Dict (Dict LinkUpdate)

-- The variables of the first loop.
pub record Scan (S : Type 0) : Type 0 where
  pub world : World S
  pub interfaces : Dict Ref
  pub link_groups : Dict (LinkGroup S)
  pub updates : Updates

abbrev pub or_empty : Option (Dict LinkUpdate) → Dict LinkUpdate
or_empty none = []
or_empty (some d) = d

module _ {S : Type 0} ⦃num : Double S⦄ where
  -- The interface object of a name, made if there is none.
  unfoldable pub ensure_interface : String → String → Scan S → Scan S × Ref
  ensure_interface fqdn key s = elim (get key s.interfaces) [
    | some r ↦ (s, r)
    | none ↦
        let (w, r) = alloc (Interface.new_interface key fqdn) s.world in
        (record s { world = w; interfaces = put key r s.interfaces }, r)
  ]

  unfoldable pub ensure_link_group : String → String → Scan S → Scan S
  ensure_link_group fqdn peer s =
      if has peer s.link_groups
      then s
      else (let (w, g) = LinkGroup.new_link_group fqdn peer s.world in
          record s { world = w; link_groups = put peer g s.link_groups })

  -- `linkGroupUpdates[fqdn][interface] = value`, with both levels made where they are missing.
  unfoldable pub note_update : Connection → Ref → Scan S → Scan S
  note_update c r s = record s {
    updates =
        put c.fqdn
          (put c.interface (record { connection = c; interface = r })
            (or_empty (get c.fqdn s.updates)))
          s.updates;
  }

  unfoldable pub scan_interface : String → String × InterfaceData → Scan S → Scan S
  unfolding ensure_interface ensure_link_group note_update
  scan_interface fqdn (key, value) s =
      let (s', r) = ensure_interface fqdn key s in
      let t = record s' {
        world = modify r (λ i. Interface.update_topology_data i value) s'.world;
      } in
      elim value.connected_to [
        | none ↦ t
        | some c ↦ note_update c r (ensure_link_group fqdn c.fqdn t)
      ]

  unfoldable pub scan_interfaces : String → List (String × InterfaceData) → Scan S → Scan S
  scan_interfaces fqdn [] s = s
  scan_interfaces fqdn (e ∷ rest) s = scan_interfaces fqdn rest (scan_interface fqdn e s)

-- The second loop: interfaces that the data no longer has. `Interface.destroy` does nothing.
unfoldable pub prune_interfaces : Dict InterfaceData → List (String × Ref) → Dict Ref → Dict Ref
prune_interfaces data' [] d = d
prune_interfaces data' ((key, value) ∷ rest) d =
    prune_interfaces data' rest (if has key data' then d else delete key d)

module _ {S : Type 0} where
  -- One round of the third loop, over the groups there are.
  unfoldable pub update_link_group :
      Updates → String → LinkGroup S → World S × Dict (LinkGroup S) → World S × Dict (LinkGroup S)
  update_link_group updates key value (w, groups) = elim (get key updates) [
    | none ↦ (LinkGroup.destroy value w, delete key groups)
    | some info ↦
        let (w', g) = LinkGroup.update_topology_data info w value in (w', put key g groups)
  ]

  unfoldable pub update_link_groups :
      Updates
      → List (String × LinkGroup S)
      → World S × Dict (LinkGroup S)
      → World S × Dict (LinkGroup S)
  update_link_groups updates [] s = s
  update_link_groups updates ((key, value) ∷ rest) s =
      update_link_groups updates rest (update_link_group updates key value s)

module _ {S : Type 0} ⦃num : Double S⦄ where
  abbrev pub start_scan : World S → Device S → Scan S
  start_scan w d = record {
    world = w;
    interfaces = d.interfaces;
    link_groups = d.link_groups;
    updates = [];
  }

  unfoldable pub update_topology_data : DeviceData → World S → Device S → World S × Device S
  update_topology_data data' w d =
      let s = scan_interfaces d.fqdn data'.interfaces (start_scan w d) in
      let interfaces = prune_interfaces data'.interfaces s.interfaces s.interfaces in
      let (w', groups) = update_link_groups s.updates s.link_groups (s.world, s.link_groups) in
      (w', record d { interfaces = interfaces; link_groups = groups })

module _ {S : Type 0} where
  destroy_groups : List (String × LinkGroup S) → World S → World S
  destroy_groups [] w = w
  destroy_groups ((key, value) ∷ rest) w = destroy_groups rest (LinkGroup.destroy value w)

  -- The device itself is dropped by its caller.
  unfoldable pub destroy : Device S → World S → World S
  unfolding destroy_groups
  destroy d w = detach d.graphics (destroy_groups d.link_groups w)

  -- `updateLinkgroupData`: connect the groups whose neighbour is on the map.
  unfoldable pub connect_groups :
      Dict (Device S)
      → List (String × LinkGroup S)
      → World S × Dict (LinkGroup S) × List String
      → World S × Dict (LinkGroup S) × List String
  connect_groups devices [] s = s
  connect_groups devices ((key, value) ∷ rest) (w, groups, found) =
      connect_groups devices rest (elim (get key devices) [
        | none ↦ (w, groups, found)
        | some nbr ↦
            let (w', g) = LinkGroup.update_target_info nbr.position nbr.interfaces value w in
            (w', put key g groups, found ++ key ∷ [])
      ])

  unfoldable pub update_linkgroup_data : Dict (Device S) → World S → Device S → World S × Device S
  update_linkgroup_data devices w d =
      let (w', groups, found) = connect_groups devices d.link_groups (w, d.link_groups, []) in
      (
        w',
        record d {
          link_groups = groups;
          neighbor_devices = found;
          super_node = some (ltb 1 (length found) || length found == 0);
        },
      )
