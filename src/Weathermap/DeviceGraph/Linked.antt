-- ===== src/Weathermap/DeviceGraph/Linked.antt =====
-- weathermap/js/devicegraph.js: the third loop of `updateTopologyData`, which links the devices.
use jaspy.Prelude.{
  Bool, true, false, String, some, List, [], ◌∷◌, Dict, get, has, put, keys, ◌≡◌, refl, ◌∙◌, sym,
  arith, eq_iff, str_eq, ◌||◌, ◌⊎◌, All-map, Option-cases, inl, inr, Bool-cases, get-put, subst,
}
use jaspy.Weathermap.Numbers.{Double}
use jaspy.Weathermap.World.{World}
use jaspy.Weathermap.Device.{Device}
use jaspy.Weathermap.Device.Linked.{IsLinked, Known, update_linkgroup_data-IsLinked}
use jaspy.Weathermap.Device.Topology
use jaspy.Weathermap.Device.Topology.{DeviceData}
use jaspy.Weathermap.DeviceGraph.{
  Map, link_device, link_devices, update_devices, drop_devices, update_topology_data,
}
use jaspy.Weathermap.DeviceGraph.Membership.{has-link_device}

abbrev elem : String → List String → Bool
elem k [] = false
elem k (j ∷ ks) = str_eq j k || elem k ks

module _ {S : Type 0} where
  -- Two maps with the same names of devices.
  abbrev pub SameNames : Dict (Device S) → Dict (Device S) → Type 0
  SameNames a b = (k : String) → has k b ≡ has k a

  pub IsLinked-SameNames :
      (a b : Dict (Device S)) (d : Device S) → SameNames a b → IsLinked a d → IsLinked b d
  IsLinked-SameNames a b d same l = record {
    known = All-map (Known a) (Known b) (λ n h. same n ∙ h) d.neighbor_devices l.known;
    super = l.super;
  }

  abbrev pub AllLinked : Dict (Device S) → Type 0
  AllLinked devices = (k : String) (d : Device S) → get k devices ≡ some d → IsLinked devices d

  pub AllLinked-empty : (devices : Dict (Device S)) → devices ≡ [] → AllLinked devices
  unfolding get
  AllLinked-empty devices e = subst AllLinked (sym e) (λ k d f. cc)

  link_device-get :
      (key : String) (w : World S) (devices : Dict (Device S)) (k : String) (d : Device S)
      → get k (link_device key (w, devices)).1 ≡ some d
      → IsLinked devices d ⊎ ((str_eq key k ≡ false) × (get k devices ≡ some d))
  unfolding link_device
  link_device-get key w devices k d e = elim (Option-cases (get key devices)) [
    | inl missing ↦ inr (ground (arith, eq_iff key k, missing), rw (missing, link_device) at e)
    | inr (old, found) ↦
        let new = (Topology.update_linkgroup_data devices w old).1 in
        let e' : get k (put key new devices) ≡ some d = rw (found, link_device) at e in
        elim (Bool-cases (str_eq key k)) [
          | inl same ↦
              let here : some new ≡ some d = rw (get-put key k new devices, same) at e' in
              inl (
                subst (λ x. IsLinked devices x) (cc here)
                  (update_linkgroup_data-IsLinked devices w old))
          | inr other ↦ inr (other, rw (get-put key k new devices, other) at e')
        ]
  ]

  -- Of the devices named in a list nothing is known yet.
  abbrev LinkedBut : List String → Dict (Device S) → Type 0
  LinkedBut ks devices =
      (k : String) (d : Device S) → get k devices ≡ some d → elem k ks ≡ false → IsLinked devices d

  link_device-LinkedBut :
      (key : String) (ks : List String) (w : World S) (devices : Dict (Device S))
      → LinkedBut (key ∷ ks) devices
      → LinkedBut ks (link_device key (w, devices)).1
  link_device-LinkedBut key ks w devices h k d e out =
      IsLinked-SameNames devices _ d (λ j. has-link_device key j (w, devices))
        (elim (link_device-get key w devices k d e) [
          | inl linked ↦ linked
          | inr (other, old) ↦ h k d old (rw (other) out)
        ])

  link_devices-LinkedBut :
      (ks : List String) (m : Map S) → LinkedBut ks m.1 → LinkedBut [] (link_devices ks m).1
  unfolding link_devices
  link_devices-LinkedBut [] m h = h
  link_devices-LinkedBut (key ∷ ks) (w, devices) h =
      link_devices-LinkedBut ks (link_device key (w, devices))
        (link_device-LinkedBut key ks w devices h)

  elem-keys :
      (k : String) (d : Dict (Device S)) (v : Device S) → get k d ≡ some v → elem k (keys d) ≡ true
  unfolding get
  elem-keys k [] v e = cc
  elem-keys k ((j, x) ∷ d) v e = ground (arith, elem-keys k d v)

module _ {S : Type 0} ⦃num : Double S⦄ where
  -- After a topology update the neighbours of every device are on the map and a device is a super
  -- node unless it has exactly one, whatever the map was before.
  pub update_topology_data-AllLinked :
      (data' : Dict DeviceData) (m : Map S) → AllLinked (update_topology_data data' m).1
  unfolding update_topology_data
  update_topology_data-AllLinked data' m k d e =
      let m' = update_devices data' m in
      let kept = drop_devices data' m'.1 m' in
      link_devices-LinkedBut (keys kept.1) kept
        (λ j x found out. absurd (ground (arith, elem-keys j kept.1 x found))) k d e refl
