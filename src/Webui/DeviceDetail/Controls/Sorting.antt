-- ===== src/Webui/DeviceDetail/Controls/Sorting.antt =====
-- nexus/webui/src/pages/DeviceDetail.tsx: the orders of the two tables and their headings.
use jaspy.Prelude.{Bool, true, false, not, String, List, [], ◌∷◌, if◌then◌else◌}
use jaspy.Webui.Platform.{Platform}
use jaspy.Webui.Text.{join}
use jaspy.Webui.DeviceTypes.{StpPort}
use jaspy.Webui.Issues.Order.{make_cmp}
use jaspy.Webui.Tables.{
  IfaceSortKey, by_name, by_state, by_speed, by_vlan, by_tagged, by_poe, by_alias, by_type,
  by_connected, StpSortKey, by_stp_vlan, by_interface, by_role, by_port_state, by_enabled,
  by_path_cost, by_designated_cost, by_priority, by_forward_transitions, stp_sort_val,
}
use jaspy.Webui.DeviceDetail.Controls.{Controls}

unfoldable pub same_key : IfaceSortKey → IfaceSortKey → Bool
same_key by_name by_name = true
same_key by_state by_state = true
same_key by_speed by_speed = true
same_key by_vlan by_vlan = true
same_key by_tagged by_tagged = true
same_key by_poe by_poe = true
same_key by_alias by_alias = true
same_key by_type by_type = true
same_key by_connected by_connected = true
same_key _ _ = false

unfoldable pub on_iface_sort : IfaceSortKey → Controls → Controls
unfolding same_key
on_iface_sort key c =
    if same_key key c.iface_sort
    then record c { iface_asc = not c.iface_asc }
    else record c { iface_sort = key; iface_asc = true }

unfoldable pub iface_arrow : IfaceSortKey → Controls → String
unfolding same_key
iface_arrow key c = if same_key key c.iface_sort then (if c.iface_asc then " ▲" else " ▼") else ""

key_name : IfaceSortKey → String
key_name by_name = "name"
key_name by_state = "state"
key_name by_speed = "speed"
key_name by_vlan = "vlan"
key_name by_tagged = "tagged"
key_name by_poe = "poe"
key_name by_alias = "alias"
key_name by_type = "type"
key_name by_connected = "connected"

-- The value of the list of orders, a key and a direction, and those of its options.
unfoldable pub select_value : Controls → String
unfolding key_name join
select_value c = join ":" (key_name c.iface_sort ∷ (if c.iface_asc then "asc" else "desc") ∷ [])

abbrev pub options : List (IfaceSortKey × Bool)
options =
    (by_name, true)
    ∷ (by_name, false)
    ∷ (by_state, true)
    ∷ (by_speed, false)
    ∷ (by_vlan, true)
    ∷ (by_poe, false)
    ∷ (by_connected, true)
    ∷ []

unfoldable pub on_select : IfaceSortKey × Bool → Controls → Controls
on_select (key, asc) c = record c { iface_sort = key; iface_asc = asc }

unfoldable pub same_stp_key : StpSortKey → StpSortKey → Bool
same_stp_key by_stp_vlan by_stp_vlan = true
same_stp_key by_interface by_interface = true
same_stp_key by_role by_role = true
same_stp_key by_port_state by_port_state = true
same_stp_key by_enabled by_enabled = true
same_stp_key by_path_cost by_path_cost = true
same_stp_key by_designated_cost by_designated_cost = true
same_stp_key by_priority by_priority = true
same_stp_key by_forward_transitions by_forward_transitions = true
same_stp_key _ _ = false

unfoldable pub on_stp_sort : StpSortKey → Controls → Controls
unfolding same_stp_key
on_stp_sort key c =
    if same_stp_key key c.stp_sort
    then record c { stp_asc = not c.stp_asc }
    else record c { stp_sort = key; stp_asc = true }

unfoldable pub stp_arrow : StpSortKey → Controls → String
unfolding same_stp_key
stp_arrow key c = if same_stp_key key c.stp_sort then (if c.stp_asc then " ▲" else " ▼") else ""

unfoldable pub sorted_stp : Platform → List StpPort → Controls → List StpPort
unfolding make_cmp stp_sort_val
sorted_stp platform stp c =
    platform.sort (make_cmp platform (stp_sort_val platform c.stp_sort) c.stp_asc) stp
