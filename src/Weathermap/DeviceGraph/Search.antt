-- ===== src/Weathermap/DeviceGraph/Search.antt =====
-- weathermap/js/devicegraph.js: `findDevicesByName`.
use jaspy.Prelude.{
  Bool, false, ◌||◌, ◌&&◌, String, List, [], ◌∷◌, Dict, get, has, ◌≡◌, refl, ap, arith, str_eq,
  eq_iff, has-cons, Bool-cases, inl, inr,
}
use jaspy.Weathermap.Device.{Device}
use jaspy.Weathermap.DeviceGraph.{find_devices_by_name}

abbrev pub listed : String → List String → Bool
listed k [] = false
listed k (j ∷ ks) = str_eq j k || listed k ks

-- A name is among those that a search finds exactly when it is on the map and matches.
pub listed-find_devices_by_name :
    {S : Type 0} (matches : String → String → Bool) (k name : String) (devices : Dict (Device S))
    → listed k (find_devices_by_name matches name devices) ≡ (has k devices && matches k name)
unfolding find_devices_by_name get
listed-find_devices_by_name matches k name [] = refl
listed-find_devices_by_name matches k name ((j, d) ∷ rest) =
    let ih = listed-find_devices_by_name matches k name rest in
    rw (has-cons j k d rest) (elim (Bool-cases (str_eq j k)) [
      | inl e ↦
          let same = (eq_iff j k).0 e in
          let there : matches j name ≡ matches k name = ap (λ x. matches x name) same in
          rw e (ground (arith, ih, e, there))
      | inr e ↦ ground (arith, ih)
    ])
