-- ===== src/Weathermap/DeviceGraph/Groups.antt =====
-- weathermap/js/devicegraph.js: the neighbours of the link groups after `updateTopologyData`.
use jaspy.Prelude.{
  true, false, ◌||◌, String, none, some, List, [], ◌∷◌, ◌++◌, Dict, get, has, put, delete, keys,
  ◌≡◌, refl, ◌∙◌, sym, subst, arith, str_eq, eq_iff, get-put, get-delete, has-put, has-cons, All,
  All-keys, Option-cases, Bool-cases, inl, inr,
}
use jaspy.Weathermap.Numbers.{Double}
use jaspy.Weathermap.World.{World}
use jaspy.Weathermap.LinkGroup
use jaspy.Weathermap.LinkGroup.{LinkGroup}
use jaspy.Weathermap.Device.{Device, new_device}
use jaspy.Weathermap.Device.Topology
use jaspy.Weathermap.Device.Topology.{DeviceData, connect_groups, update_linkgroup_data}
use jaspy.Weathermap.Device.Groups.{leads_to, has-link_groups}
use jaspy.Weathermap.DeviceGraph.{
  Map, ensure_device, update_device, update_devices, drop_devices, link_device, link_devices,
  update_topology_data,
}
use jaspy.Weathermap.DeviceGraph.Membership.{has-update_topology_data}
use jaspy.Weathermap.DeviceGraph.Drawable.{AllDrawable}

-- The devices that an entry leads to are among the data's.
abbrev pub Leads : Dict DeviceData → DeviceData → Type 0
Leads data' v = (j : String) → leads_to j v.interfaces ≡ true → has j data' ≡ true

-- The data names only devices of its own.
abbrev pub Closed : Dict DeviceData → Type 0
Closed data' = All (λ e. Leads data' e.1) data'

module _ {S : Type 0} where
  abbrev GroupsIn : Dict DeviceData → Device S → Type 0
  GroupsIn data' d = (j : String) → has j d.link_groups ≡ true → has j data' ≡ true

  abbrev Good : Dict DeviceData → String → Dict (Device S) → Type 0
  Good data' k devices = (d : Device S) → get k devices ≡ some d → GroupsIn data' d

  connect_groups-has :
      (j : String) (devices : Dict (Device S)) (snapshot : List (String × LinkGroup S))
      (w : World S) (groups : Dict (LinkGroup S)) (found : List String)
      → has j (connect_groups devices snapshot (w, groups, found)).1 ≡ true
      → (has j groups || has j snapshot) ≡ true
  unfolding connect_groups get
  connect_groups-has j devices [] w groups found h = ground (arith, h)
  connect_groups-has j devices ((key, value) ∷ rest) w groups found h =
      rw (has-cons key j value rest) (elim (Option-cases (get key devices)) [
        | inl e ↦
            let ih =
              connect_groups-has j devices rest w groups found (rw (e, connect_groups) at h) in
            ground (arith, ih)
        | inr (nbr, e) ↦
            let (w', g) = LinkGroup.update_target_info nbr.position nbr.interfaces value w in
            let ih =
              connect_groups-has j devices rest w' (put key g groups) (found ++ key ∷ [])
                (rw (e, connect_groups) at h) in
            ground (arith, ih, has-put key j g groups)
      ])

  update_linkgroup_data-GroupsIn :
      (data' : Dict DeviceData) (devices : Dict (Device S)) (w : World S) (d : Device S)
      → GroupsIn data' d
      → GroupsIn data' (update_linkgroup_data devices w d).1
  unfolding update_linkgroup_data
  update_linkgroup_data-GroupsIn data' devices w d h j e =
      let own = connect_groups-has j devices d.link_groups w d.link_groups [] e in
      h j (ground (arith, own))

  put-Good :
      (data' : Dict DeviceData) (k key : String) (new : Device S) (devices : Dict (Device S))
      → (str_eq key k ≡ true → GroupsIn data' new)
      → (str_eq key k ≡ false → Good data' k devices)
      → Good data' k (put key new devices)
  put-Good data' k key new devices own h d f = elim (Bool-cases (str_eq key k)) [
    | inl same ↦
        let here : some new ≡ some d = rw (get-put key k new devices, same) at f in
        let eq : new ≡ d = cc here in subst (λ x. GroupsIn data' x) eq (own same)
    | inr other ↦ h other d (rw (get-put key k new devices, other) at f)
  ]

  link_device-Good :
      (data' : Dict DeviceData) (k key : String) (m : Map S)
      → Good data' k m.1
      → Good data' k (link_device key m).1
  unfolding link_device
  link_device-Good data' k key (w, devices) h = elim (Option-cases (get key devices)) [
    | inl e ↦ rw (e, link_device) h
    | inr (old, e) ↦
        rw (e, link_device)
          (put-Good data' k key (update_linkgroup_data devices w old).1 devices
            (λ same.
              update_linkgroup_data-GroupsIn data' devices w old
                (h old (subst (λ x. get x devices ≡ some old) ((eq_iff key k).0 same) e)))
            (λ other. h))
  ]

  link_devices-Good :
      (data' : Dict DeviceData) (k : String) (ks : List String) (m : Map S)
      → Good data' k m.1
      → Good data' k (link_devices ks m).1
  unfolding link_devices
  link_devices-Good data' k [] m h = h
  link_devices-Good data' k (key ∷ rest) m h =
      link_devices-Good data' k rest (link_device key m) (link_device-Good data' k key m h)

  get-drop_devices :
      (data' : Dict DeviceData) (k : String) (snapshot : List (String × Device S)) (m : Map S)
      (d : Device S)
      → get k (drop_devices data' snapshot m).1 ≡ some d
      → get k m.1 ≡ some d
  unfolding drop_devices
  get-drop_devices data' k [] m d e = e
  get-drop_devices data' k ((key, value) ∷ rest) (w, devices) d e =
      elim (Bool-cases (has key data')) [
        | inl old ↦ get-drop_devices data' k rest (w, devices) d (rw (old, drop_devices) at e)
        | inr gone ↦
            let f =
              get-drop_devices data' k rest (Topology.destroy value w, delete key devices) d
                (rw (gone, drop_devices) at e) in
            ground (arith, f, get-delete key k devices)
      ]

module _ {S : Type 0} ⦃num : Double S⦄ where
  updated-GroupsIn :
      (data' : Dict DeviceData) (v : DeviceData) (w : World S) (d : Device S)
      → Leads data' v
      → GroupsIn data' (Topology.update_topology_data v w d).1
  updated-GroupsIn data' v w d closed j e = closed j (sym (has-link_groups j v w d) ∙ e)

  -- A round of the first loop: the device at hand is good by its data, the others as they were.
  update_device-Good :
      (data' : Dict DeviceData) (k key : String) (v : DeviceData) (m : Map S)
      → Leads data' v
      → (str_eq key k ≡ false → Good data' k m.1)
      → Good data' k (update_device key v m).1
  unfolding update_device
  update_device-Good data' k key v (w, devices) closed h = elim (Option-cases (get key devices)) [
    | inl e ↦
        rw (e, update_device)
          (λ d f. elim (Bool-cases (str_eq key k)) [
            | inl same ↦
                let gone : get k devices ≡ none =
                  subst (λ x. get x devices ≡ none) ((eq_iff key k).0 same) e in
                absurd (ground (arith, gone, f))
            | inr other ↦ h other d f
          ])
    | inr (old, e) ↦
        rw (e, update_device)
          (put-Good data' k key (Topology.update_topology_data v w old).1 devices
            (λ same. updated-GroupsIn data' v w old closed) h)
  ]

  ensure_device-Good :
      (data' : Dict DeviceData) (k key : String) (m : Map S)
      → str_eq key k ≡ false
      → Good data' k m.1
      → Good data' k (ensure_device key m).1
  unfolding ensure_device
  ensure_device-Good data' k key (w, devices) other h = elim (Bool-cases (has key devices)) [
    | inl e ↦ rw e h
    | inr e ↦
        rw e (
          put-Good data' k key (new_device key w).1 devices (λ same. absurd (ground arith))
            (λ q. h))
  ]

  round-Good :
      (data' : Dict DeviceData) (k key : String) (v : DeviceData) (m : Map S)
      → Leads data' v
      → (str_eq key k ≡ false → Good data' k m.1)
      → Good data' k (update_device key v (ensure_device key m)).1
  round-Good data' k key v m closed h =
      update_device-Good data' k key v (ensure_device key m) closed
        (λ other. ensure_device-Good data' k key m other (h other))

  -- The first loop keeps what is good, and makes good what it has data for.
  update_devices-Good :
      (data' : Dict DeviceData) (k : String) (rest : List (String × DeviceData)) (m : Map S)
      → All (λ e. Leads data' e.1) rest
      → (has k rest ≡ false → Good data' k m.1)
      → Good data' k (update_devices rest m).1
  unfolding update_devices get
  update_devices-Good data' k [] m closed h = h refl
  update_devices-Good data' k ((key, v) ∷ rest) m closed h =
      update_devices-Good data' k rest (update_device key v (ensure_device key m)) closed.1 (λ out.
        round-Good data' k key v m closed.0
          (λ other. h (rw (has-cons key k v rest, other, out) refl)))

  update_topology_data-Good :
      (data' : Dict DeviceData) (k : String) (m : Map S)
      → Closed data'
      → has k data' ≡ true
      → Good data' k (update_topology_data data' m).1
  unfolding update_topology_data
  update_topology_data-Good data' k m closed own =
      let m' = update_devices data' m in
      let kept = drop_devices data' m'.1 m' in
      link_devices-Good data' k (keys kept.1) kept (λ d e.
        update_devices-Good data' k data' m closed (λ out. absurd (ground arith)) d
          (get-drop_devices data' k m'.1 m' d e))

  -- Where the data names only devices of its own, a topology update leaves every link group with
  -- its neighbour on the map, whatever the map was before.
  pub update_topology_data-AllDrawable :
      (data' : Dict DeviceData) (m : Map S)
      → Closed data'
      → AllDrawable (update_topology_data data' m).1
  update_topology_data-AllDrawable data' m closed k d e =
      let own : has k data' ≡ true = sym (has-update_topology_data k data' m) ∙ rw e refl in
      All-keys (λ j. has j (update_topology_data data' m).1 ≡ true) d.link_groups
        (λ j h.
          has-update_topology_data j data' m
          ∙ update_topology_data-Good data' k m closed own d e j h)
