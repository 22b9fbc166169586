-- ===== src/Weathermap/Device/Linked.antt =====
-- weathermap/js/device.js: `updateLinkgroupData`, and what `isLargeIcon` reads of the neighbours.
use jaspy.Prelude.{
  true, ◌||◌, String, none, some, List, [], ◌∷◌, ◌++◌, Dict, keys, get, has, ◌≡◌, ◌≢◌, refl, arith,
  ltb, ◌==◌, length, All, All-append, Option-cases, inl, inr,
}
use jaspy.Weathermap.World.{World}
use jaspy.Weathermap.LinkGroup.{LinkGroup}
use jaspy.Weathermap.Device.{Device, is_super_node, is_large_icon}
use jaspy.Weathermap.Device.Topology.{connect_groups, update_linkgroup_data}

module _ {S : Type 0} where
  abbrev pub Known : Dict (Device S) → String → Type 0
  Known devices n = has n devices ≡ true

  -- The neighbours are on the map, and a device is a super node unless it has exactly one.
  pub record IsLinked (devices : Dict (Device S)) (d : Device S) : Type 0 where
    pub known : All (Known devices) d.neighbor_devices
    pub super :
        d.super_node ≡ some (ltb 1 (length d.neighbor_devices) || length d.neighbor_devices == 0)

  pub has-get :
      (k : String) (devices : Dict (Device S))
      → Known devices k
      → (d : Device S) × (get k devices ≡ some d)
  has-get k devices h = elim (Option-cases (get k devices)) [
    | inl e ↦ absurd (ground arith)
    | inr p ↦ p
  ]

  -- A device that is linked has an icon size: `isLargeIcon` does not throw.
  pub is_large_icon-IsLinked :
      (devices : Dict (Device S)) (d : Device S)
      → IsLinked devices d
      → is_large_icon devices d ≢ none
  unfolding is_large_icon is_super_node
  is_large_icon-IsLinked devices d l = ground arith

  connect_groups-Known :
      (devices : Dict (Device S)) (groups : List (String × LinkGroup S)) (w : World S)
      (g : Dict (LinkGroup S)) (found : List String)
      → All (Known devices) found
      → All (Known devices) (connect_groups devices groups (w, g, found)).2
  unfolding connect_groups
  connect_groups-Known devices [] w g found h = h
  connect_groups-Known devices ((key, value) ∷ rest) w g found h =
      elim (Option-cases (get key devices)) [
        | inl e ↦ rw (e, connect_groups) (connect_groups-Known devices rest w g found h)
        | inr (nbr, e) ↦
            rw (e, connect_groups)
              (connect_groups-Known devices rest _ _ (found ++ key ∷ [])
                (All-append (Known devices) found (key ∷ []) h (rw e refl, tt)))
      ]

  -- `updateLinkgroupData` links the device.
  pub update_linkgroup_data-IsLinked :
      (devices : Dict (Device S)) (w : World S) (d : Device S)
      → IsLinked devices (update_linkgroup_data devices w d).1
  unfolding update_linkgroup_data
  update_linkgroup_data-IsLinked devices w d = record {
    known = connect_groups-Known devices d.link_groups w d.link_groups [] tt;
    super = refl;
  }

  -- Links that two devices share: the names, the neighbours and the keys of the groups.
  pub record SameLinks (d e : Device S) : Type 0 where
    pub fqdn : e.fqdn ≡ d.fqdn
    pub neighbors : e.neighbor_devices ≡ d.neighbor_devices
    pub super : e.super_node ≡ d.super_node
    pub groups : keys e.link_groups ≡ keys d.link_groups
