-- ===== src/Webui/Tables/Filtered.antt =====
-- nexus/webui/src/pages/Devices.tsx and pages/Vlans.tsx: the tables without a filter.
use mathlib.Core.List.{Perm}
use jaspy.Prelude.{Bool, true, String, List, [], ◌∷◌, str_eq, ◌≡◌, refl, arith, subst, ap}
use jaspy.Webui.DeviceTypes.{Device, VlanSummary}
use jaspy.Webui.Platform.{Platform, Rearranges}
use jaspy.Webui.Issues.Order.{keep}
use jaspy.Webui.Tables.{
  DeviceSortKey, device_matches, device_rows, vlan_matches, vlan_rows, needle_of,
}

keep_all : {A : Type 0} (p : A → Bool) (xs : List A) → ((x : A) → p x ≡ true) → keep p xs ≡ xs
keep_all p [] h = refl
keep_all p (x ∷ xs) h = rw (h x) (ap (λ ys. x ∷ ys) (keep_all p xs h))

module _ (platform : Platform) (filter : String)
    (blank : str_eq (needle_of platform filter) "" ≡ true) where
  -- A filter of spaces shows every device, in some order.
  pub device_rows-Perm :
      (devices : List Device) (key : DeviceSortKey) (asc : Bool)
      → Rearranges platform
      → Perm (device_rows platform devices filter key asc) devices
  unfolding device_rows device_matches
  device_rows-Perm devices key asc sorting =
      let everything =
        keep_all (device_matches platform (needle_of platform filter)) devices
          (λ d. ground (arith, blank)) in
      subst (λ ds. Perm (device_rows platform devices filter key asc) ds) everything
        (sorting.sort-Perm _ (keep (device_matches platform (needle_of platform filter)) devices))

  -- And every VLAN, in the order of the server.
  pub vlan_rows_all : (vlans : List VlanSummary) → vlan_rows platform vlans filter ≡ vlans
  unfolding vlan_rows vlan_matches
  vlan_rows_all vlans =
      keep_all (vlan_matches platform (needle_of platform filter)) vlans
        (λ v. ground (arith, blank))
