-- ===== src/Webui/DeviceDetail/Controls.antt =====
-- nexus/webui/src/pages/DeviceDetail.tsx: the controls of the page: which rows are expanded, the
-- columns that the tables are sorted by, the types of interfaces that are hidden, the buttons and the
-- events of the device.
use jaspy.Prelude.{
  ℕ, Bool, true, false, not, ◌&&◌, ◌||◌, String, Option, none, some, List, [], ◌∷◌, ◌++◌, map,
  length, Dict, ℤ, if◌then◌else◌, str_eq, str_append, ltb, ◌==◌,
}
use jaspy.Webui.Platform.{Platform}
use jaspy.Webui.Text.{join, split}
use jaspy.Webui.DeviceTypes.{Device, Interface, StpPort}
use jaspy.Webui.Issues.Order.{keep, make_cmp}
use jaspy.Webui.Issues.Page.{set_has, toggle_member}
use jaspy.Webui.Tables.{
  IfaceSortKey, by_name, by_state, by_speed, by_vlan, by_tagged, by_poe, by_alias, by_type,
  by_connected, StpSortKey, by_stp_vlan, by_interface, by_role, by_port_state, by_enabled,
  by_path_cost, by_designated_cost, by_priority, by_forward_transitions, iface_category,
  iface_sort_val, stp_sort_val, toggle_polling,
}
use jaspy.Webui.DeviceDetail.Ports.{count_labels}
use jaspy.Webui.Client.Calls.{
  ApiCall, update_device, delete_device, poll_vlans, run_single_device_discovery,
}
pub mod Sorting
pub mod Chips

pub record Controls : Type 0 where
  pub confirm_delete : Bool
  pub expanded_detail : List ℕ
  pub iface_sort : IfaceSortKey
  pub iface_asc : Bool
  pub hidden_types : List String
  pub stp_sort : StpSortKey
  pub stp_asc : Bool

abbrev pub initial : Controls
initial = record {
  confirm_delete = false;
  expanded_detail = [];
  iface_sort = by_name;
  iface_asc = true;
  hidden_types = "VLAN" ∷ [];
  stp_sort = by_stp_vlan;
  stp_asc = true;
}

unfoldable pub number_in : ℕ → List ℕ → Bool
number_in id [] = false
number_in id (n ∷ s) = n == id || number_in id s

without_number : ℕ → List ℕ → List ℕ
without_number id [] = []
without_number id (n ∷ s) = let rest = without_number id s in if n == id then rest else n ∷ rest

unfoldable pub toggle_number : ℕ → List ℕ → List ℕ
unfolding number_in without_number
toggle_number id s = if number_in id s then without_number id s else s ++ (id ∷ [])

unfoldable pub toggle_detail : ℕ → Controls → Controls
unfolding toggle_number
toggle_detail id c = record c { expanded_detail = toggle_number id c.expanded_detail }

-- "Delete device…" of the menu shows the button that confirms.
unfoldable pub set_confirm_delete : Bool → Controls → Controls
set_confirm_delete asked c = record c { confirm_delete = asked }

unfoldable pub toggle_type : String → Controls → Controls
unfolding toggle_member
toggle_type t c = record c { hidden_types = toggle_member t c.hidden_types }

unfoldable pub short_if_type : String → String
short_if_type t =
    if str_eq t "ethernetCsmacd"
    then "eth"
    else if str_eq t "propVirtual"
    then "propV"
    else if str_eq t "l2vlan"
    then "l2v"
    else t

-- A chip of the filter: its type, whether it is on, and how many interfaces have the type.
pub record Chip : Type 0 where
  pub type : String
  pub text : String
  pub on : Bool
  pub count : ℕ

module _ (platform : Platform) where
  unfoldable pub type_counts : List Interface → Dict ℕ
  unfolding count_labels iface_category
  type_counts interfaces = count_labels (map (iface_category platform) interfaces) []

  -- `[...typeCounts.keys()].sort()`, with the counts beside the keys.
  unfoldable pub interface_types : List Interface → Dict ℕ
  unfolding type_counts
  interface_types interfaces =
      platform.sort (λ a b. platform.compare_units a.0 b.0) (type_counts interfaces)

  unfoldable pub shown : Controls → Interface → Bool
  unfolding set_has iface_category
  shown c i = not (set_has (iface_category platform i) c.hidden_types)

  unfoldable pub sorted_interfaces : List Interface → Controls → List Interface
  unfolding make_cmp iface_sort_val
  sorted_interfaces interfaces c =
      platform.sort (make_cmp platform (iface_sort_val c.iface_sort) c.iface_asc) interfaces

  unfoldable pub visible_interfaces : List Interface → Controls → List Interface
  unfolding shown sorted_interfaces
  visible_interfaces interfaces c = keep (shown c) (sorted_interfaces interfaces c)

  unfoldable pub iface_count_label : List Interface → Controls → String
  unfolding visible_interfaces join
  iface_count_label interfaces c =
      let all = length interfaces in
      let visible = length (visible_interfaces interfaces c) in
      let some_of = join "" (platform.show visible ∷ " of " ∷ platform.show all ∷ []) in
      if visible == all then platform.show all else some_of

  unfoldable pub type_chip : Controls → String × ℕ → Chip
  unfolding set_has short_if_type
  type_chip c (t, n) = record {
    type = t;
    text = short_if_type t;
    on = not (set_has t c.hidden_types);
    count = n;
  }

  -- The chips are there where the interfaces are of more than one type.
  unfoldable pub type_filter : List Interface → Controls → Option (List Chip)
  unfolding interface_types type_chip
  type_filter interfaces c =
      let types = interface_types interfaces in
      if ltb 1 (length types) then some (map (type_chip c) types) else none

  -- `device.fqdn.split('.')[0]`
  unfoldable pub megaexcel_device_url : Option String → Device → Option String
  unfolding split join
  megaexcel_device_url none d = none
  megaexcel_device_url (some url) d = elim (split "." d.fqdn) [
    | [] ↦ none
    | host ∷ rest ↦ if str_eq url "" then none else some (join "" (url ∷ "/entity/" ∷ host ∷ []))
  ]

-- What the buttons call, for the device of the page.
pub data Button : Type 0 where
  toggle_polling_button run_discovery_button poll_vlans_button confirm_delete_button : Button

unfoldable pub on_button : String → Device → Button → ApiCall
unfolding toggle_polling
on_button fqdn d toggle_polling_button = update_device fqdn (toggle_polling d)
on_button fqdn d run_discovery_button = run_single_device_discovery fqdn
on_button fqdn d poll_vlans_button = poll_vlans fqdn
on_button fqdn d confirm_delete_button = delete_device fqdn

-- The queries that are fetched again.
pub data Query : Type 0 where
  device_query : String → Query
  devices_query summary_query : Query

-- A message of the device's topic: the type of its event, if it has one that is not empty.
unfoldable pub on_message : String → Option String → List Query
on_message fqdn none = []
on_message fqdn (some event_type) =
    let more = if str_eq event_type "pingChange" then devices_query ∷ summary_query ∷ [] else [] in
    if str_eq event_type "" then [] else device_query fqdn ∷ more
