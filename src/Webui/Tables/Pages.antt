-- ===== src/Webui/Tables/Pages.antt =====
-- nexus/webui/src/pages/Devices.tsx and pages/Vlans.tsx: the pages around the tables as steps.
use jaspy.Prelude.{
  ℕ, suc, Bool, true, false, not, String, Option, some, List, [], ◌∷◌, ◌++◌, if◌then◌else◌,
}
use jaspy.Webui.DeviceTypes.{VlanSummary, VlanPolicyLevel}
use jaspy.Webui.Text.{join}
use jaspy.Webui.Badges.{badge_warn}
use jaspy.Webui.Client.Calls.{ApiCall, set_vlan_policy}
use jaspy.Webui.Parts.{Part, plain, muted, badge_part}
use jaspy.Webui.DeviceDetail.Controls.{toggle_number}
use jaspy.Webui.Tables.{DeviceSortKey, fqdn, device_type, up, interface_count, last_poll}

pub record Order : Type 0 where
  pub sort_key : DeviceSortKey
  pub sort_asc : Bool

unfoldable pub same_key : DeviceSortKey → DeviceSortKey → Bool
same_key fqdn fqdn = true
same_key device_type device_type = true
same_key up up = true
same_key interface_count interface_count = true
same_key last_poll last_poll = true
same_key _ _ = false

unfoldable pub on_sort : DeviceSortKey → Order → Order
unfolding same_key
on_sort key o =
    if same_key key o.sort_key
    then record o { sort_asc = not o.sort_asc }
    else record { sort_key = key; sort_asc = true }

unfoldable pub arrow : DeviceSortKey → Order → String
unfolding same_key
arrow key o = if same_key key o.sort_key then (if o.sort_asc then " ▲" else " ▼") else ""

unfoldable pub vlan_name_cell : VlanSummary → List Part
vlan_name_cell v = elim v.names [
  | [] ↦ muted "—" ∷ []
  | name ∷ names ↦ elim names [
    | [] ↦ plain name ∷ []
    | other ∷ more ↦
        plain (join " / " (name ∷ other ∷ more))
        ∷ badge_part (record {
          class = badge_warn;
          text = "name mismatch";
          title = some "This VLAN is named differently on different switches";
        })
        ∷ []
  ]
]

pub record VlansPage : Type 0 where
  pub vlans : Option (List VlanSummary)
  pub filter : String
  pub expanded : List ℕ
  pub setting : Bool
  pub calls : List ApiCall
  -- How often the list of the devices was to be fetched again.
  pub devices_fetches : ℕ

pub data Event : Type 0 where
  vlans_answer : List VlanSummary → Event
  type_filter : String → Event
  toggle : ℕ → Event
  choose_level : ℕ → VlanPolicyLevel → Event
  policy_set : List VlanSummary → Event
  policy_failed : Event

-- The lists of levels are disabled while one is set.
unfoldable pub on_choose_level : ℕ → VlanPolicyLevel → VlansPage → VlansPage
on_choose_level id level s =
    let call = set_vlan_policy (record { vlan_id = id; level = level }) in
    if s.setting then s else record s { setting = true; calls = s.calls ++ (call ∷ []) }

unfoldable pub step : Event → VlansPage → VlansPage
unfolding toggle_number on_choose_level
step (vlans_answer vlans) s = record s { vlans = some vlans }
step (type_filter needle) s = record s { filter = needle }
step (toggle id) s = record s { expanded = toggle_number id s.expanded }
step (choose_level id level) s = on_choose_level id level s
step (policy_set updated) s = record s {
  vlans = some updated;
  setting = false;
  devices_fetches = suc s.devices_fetches;
}
step policy_failed s = record s { setting = false }
