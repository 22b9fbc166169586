-- ===== src/Weathermap/DeviceGraph/Membership.antt =====
-- weathermap/js/devicegraph.js: the names on the map under `updateTopologyData`.
use jaspy.Prelude.{
  keep_all, kept, dropped, in_data, true, false, not, ◌&&◌, ◌||◌, String, List, [], ◌∷◌, Dict, get,
  has, delete, keys, subst, ◌≡◌, refl, ◌∙◌, arith, eq_iff, str_eq, has-put, has-put_old, has-delete,
  has-cons, Option-cases, Bool-cases, inl, inr,
}
use jaspy.Weathermap.Numbers.{Double}
use jaspy.Weathermap.Device.{Device}
use jaspy.Weathermap.Device.Topology
use jaspy.Weathermap.Device.Topology.{DeviceData}
use jaspy.Weathermap.DeviceGraph.{
  Map, ensure_device, update_device, update_devices, drop_devices, link_device, link_devices,
  update_topology_data,
}

module _ {S : Type 0} ⦃num : Double S⦄ where
  has-ensure_device :
      (key j : String) (m : Map S) → has j (ensure_device key m).1 ≡ (str_eq key j || has j m.1)
  unfolding ensure_device
  has-ensure_device key j (w, devices) = elim (Bool-cases (has key devices)) [
    | inl old ↦ rw old (ground (arith, eq_iff key j))
    | inr new ↦ rw new (has-put key j _ devices)
  ]

  has-update_device :
      (key j : String) (v : DeviceData) (m : Map S) → has j (update_device key v m).1 ≡ has j m.1
  unfolding update_device
  has-update_device key j v (w, devices) = elim (Option-cases (get key devices)) [
    | inl e ↦ rw (e, update_device)
    | inr (d, e) ↦ rw (e, update_device) (has-put_old key j _ d devices e)
  ]

  has-update_devices :
      (j : String) (data' : List (String × DeviceData)) (m : Map S)
      → has j (update_devices data' m).1 ≡ (has j data' || has j m.1)
  unfolding update_devices get
  has-update_devices j [] m = refl
  has-update_devices j ((key, v) ∷ rest) m =
      rw
        (
          has-update_devices j rest (update_device key v (ensure_device key m)),
          has-update_device key j v (ensure_device key m),
          has-ensure_device key j m,
        )
        (ground arith)

module _ {S : Type 0} where
  has-drop_devices :
      (j : String) (data' : Dict DeviceData) (snapshot : List (String × Device S)) (m : Map S)
      → has j (drop_devices data' snapshot m).1
        ≡ (has j m.1 && (has j data' || not (has j snapshot)))
  unfolding drop_devices get
  has-drop_devices j data' [] (w, devices) = keep_all (has j devices) (has j data')
  has-drop_devices j data' ((key, value) ∷ rest) (w, devices) = elim (Bool-cases (has key data')) [
    | inl old ↦ rw (has-cons key j value rest) (
        rw (old, drop_devices)
          (rw (has-drop_devices j data' rest (w, devices)) (
            kept (str_eq key j) (has j devices) (has j data') (has j rest)
              (λ e. subst (λ k. has k data' ≡ true) ((eq_iff key j).0 e) old))))
    | inr gone ↦ rw (has-cons key j value rest) (
        rw (gone, drop_devices)
          (rw
            (
              has-drop_devices j data' rest (Topology.destroy value w, delete key devices),
              has-delete key j devices,
            )
            (dropped (str_eq key j) (has j devices) (has j data') (has j rest)
              (λ e. subst (λ k. has k data' ≡ false) ((eq_iff key j).0 e) gone))))
  ]

  pub has-link_device : (key j : String) (m : Map S) → has j (link_device key m).1 ≡ has j m.1
  unfolding link_device
  has-link_device key j (w, devices) = elim (Option-cases (get key devices)) [
    | inl e ↦ rw (e, link_device)
    | inr (d, e) ↦ rw (e, link_device) (has-put_old key j _ d devices e)
  ]

  has-link_devices :
      (j : String) (ks : List String) (m : Map S) → has j (link_devices ks m).1 ≡ has j m.1
  unfolding link_devices
  has-link_devices j [] m = refl
  has-link_devices j (key ∷ rest) m =
      has-link_devices j rest (link_device key m) ∙ has-link_device key j m

module _ {S : Type 0} ⦃num : Double S⦄ where
  -- After a topology update the devices on the map are exactly those of the data, whatever was on
  -- the map before.
  pub has-update_topology_data :
      (j : String) (data' : Dict DeviceData) (m : Map S)
      → has j (update_topology_data data' m).1 ≡ has j data'
  unfolding update_topology_data
  has-update_topology_data j data' m =
      let m' = update_devices data' m in
      rw
        (
          has-link_devices j (keys (drop_devices data' m'.1 m').1) (drop_devices data' m'.1 m'),
          has-drop_devices j data' m'.1 m',
          has-update_devices j data' m,
        )
        (in_data (has j m.1) (has j data'))
