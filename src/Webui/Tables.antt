-- ===== src/Webui/Tables.antt =====
-- nexus/webui/src/pages/Devices.tsx, pages/Vlans.tsx and pages/DeviceDetail.tsx: which rows the tables
-- show, and what they sort by.
use jaspy.Prelude.{
  ℕ, suc, zero, ◌-◌, Bool, true, false, not, ◌&&◌, ◌||◌, String, Option, none, some, List, [], ◌∷◌,
  length, if◌then◌else◌, str_eq, str_append, ℤ, ltb,
}
use jaspy.Webui.Types.{CdpNeighbor}
use jaspy.Webui.DeviceTypes.{Device, Interface, StpPort, VlanSummary}
use jaspy.Webui.Platform.{Platform}
use jaspy.Webui.Issues.{any}
use jaspy.Webui.Issues.Order.{SortVal, null, number, label, negate, difference, keep}
use jaspy.Webui.Discovery.{DeviceUpdate}
pub mod Filtered
pub mod Pages

pub data DeviceSortKey : Type 0 where
  fqdn device_type up interface_count last_poll : DeviceSortKey

abbrev or_blank : Option String → String
or_blank none = ""
or_blank (some s) = s

abbrev rank_up : Option Bool → ℕ
rank_up (some false) = 0
rank_up none = 1
rank_up (some true) = 2

-- `Number.MAX_SAFE_INTEGER` for a device that was not polled.
abbrev poll_age : Option ℕ → ℕ
poll_age none = 9007199254740991
poll_age (some s) = s

-- `display_name ?? name`
abbrev shown_name : Interface → String
shown_name i = elim i.display_name [ none ↦ i.name | some n ↦ n ]

-- An `or` of two values that may be missing.
abbrev or_other : Option String → Option String → Option String
or_other none b = b
or_other (some a) b = some a

module _ (platform : Platform) where
  -- `text.toLowerCase().includes(needle)`
  abbrev pub contains : String → String → Bool
  contains text needle = platform.includes (platform.to_lower_case text) needle

  abbrev pub needle_of : String → String
  needle_of filter = platform.to_lower_case (platform.trim filter)

  unfoldable pub device_matches : String → Device → Bool
  device_matches needle d =
      str_eq needle ""
      || contains d.fqdn needle
      || contains (or_blank d.device_type) needle
      || contains (or_blank d.software_version) needle

  unfoldable pub device_cmp : DeviceSortKey → Device → Device → ℤ
  device_cmp fqdn a b = platform.locale_compare_plain a.fqdn b.fqdn
  device_cmp device_type a b =
      platform.locale_compare_plain (or_blank a.device_type) (or_blank b.device_type)
  device_cmp interface_count a b = difference a.interface_count b.interface_count
  device_cmp up a b = difference (rank_up a.up) (rank_up b.up)
  device_cmp last_poll a b =
      difference (poll_age a.seconds_since_last_poll) (poll_age b.seconds_since_last_poll)

  unfoldable pub device_rows : List Device → String → DeviceSortKey → Bool → List Device
  unfolding device_matches device_cmp
  device_rows devices filter sort_key sort_asc =
      platform.sort (λ a b. let c = device_cmp sort_key a b in if sort_asc then c else negate c)
        (keep (device_matches (needle_of filter)) devices)

  unfoldable pub vlan_matches : String → VlanSummary → Bool
  vlan_matches needle v =
      str_eq needle ""
      || platform.includes (platform.show v.id) needle
      || any (λ n. contains n needle) v.names
      || any (λ d. contains d.fqdn needle) v.devices

  unfoldable pub vlan_rows : List VlanSummary → String → List VlanSummary
  unfolding vlan_matches
  vlan_rows vlans filter = keep (vlan_matches (needle_of filter)) vlans

  -- A name that starts with "Po" or "Vl", in either case.
  unfoldable pub iface_category : Interface → String
  iface_category i =
      let name = platform.to_lower_case (shown_name i) in
      if str_eq i.interface_type "propVirtual"
      then (if platform.starts_with name "po"
          then "Po"
          else if platform.starts_with name "vl"
          then "VLAN"
          else i.interface_type)
      else i.interface_type

-- VLANs that go by several names.
unfoldable pub conflicts : List VlanSummary → ℕ
conflicts vlans = length (keep (λ v. ltb 1 (length v.names)) vlans)

unfoldable pub cdp_neighbor_text : CdpNeighbor → String
cdp_neighbor_text n = elim n.device_port [
  | none ↦ n.device_id
  | some port ↦ if str_eq port "" then n.device_id else str_append n.device_id (str_append ":" port)
]

pub data IfaceSortKey : Type 0 where
  by_name by_state by_speed by_vlan by_tagged by_poe by_alias by_type by_connected : IfaceSortKey

abbrev number_or_null : Option ℕ → SortVal
number_or_null none = null
number_or_null (some n) = number n

abbrev label_or_null : Option String → SortVal
label_or_null none = null
label_or_null (some s) = label s

abbrev or_zero : Option ℕ → ℕ
or_zero none = 0
or_zero (some n) = n

abbrev state_rank : Interface → ℕ
state_rank i = if i.err_disabled then 0 else elim i.up [ none ↦ 2 | some b ↦ if b then 3 else 1 ]

unfoldable pub iface_sort_val : IfaceSortKey → Interface → SortVal
unfolding cdp_neighbor_text
iface_sort_val by_name i = label (shown_name i)
iface_sort_val by_state i = number (state_rank i)
iface_sort_val by_speed i = number_or_null i.speed
iface_sort_val by_vlan i = number_or_null i.native_vlan
iface_sort_val by_tagged i = number (elim i.tagged_vlans [ none ↦ 0 | some vs ↦ length vs ])
iface_sort_val by_poe i = elim i.poe [
  | none ↦ null
  | some p ↦ if str_eq p.status "deliveringPower" then number (or_zero p.power_mw) else null
]
iface_sort_val by_alias i = label_or_null i.alias
iface_sort_val by_type i = label i.interface_type
iface_sort_val by_connected i = elim i.connected_to [
  | some c ↦ label c.fqdn
  | none ↦ elim i.cdp_neighbor [ none ↦ null | some n ↦ label (cdp_neighbor_text n) ]
]

pub data StpSortKey : Type 0 where
  by_stp_vlan by_interface by_role by_port_state by_enabled by_path_cost by_designated_cost
        by_priority by_forward_transitions :
      StpSortKey

unfoldable pub stp_sort_val : Platform → StpSortKey → StpPort → SortVal
stp_sort_val platform by_stp_vlan p = number p.vlan
stp_sort_val platform by_interface p = elim p.interface_name [
  | none ↦ label (str_append "port " (platform.show p.stp_port_id))
  | some name ↦ label name
]
stp_sort_val platform by_role p = label p.role
stp_sort_val platform by_port_state p = label p.state
stp_sort_val platform by_enabled p = elim p.enabled [
  | none ↦ null
  | some b ↦ number (if b then 1 else 0)
]
stp_sort_val platform by_path_cost p = number p.path_cost
stp_sort_val platform by_designated_cost p = number p.designated_cost
stp_sort_val platform by_priority p = number p.priority
stp_sort_val platform by_forward_transitions p = number p.forward_transitions

-- `updateBody`, with the one override that the page has.
unfoldable pub update_body : Device → Option Bool → DeviceUpdate
update_body d polling_enabled = record {
  name = d.name;
  dns_domain = d.dns_domain;
  snmp_community = d.snmp_community;
  base_mac = d.base_mac;
  polling_enabled = polling_enabled;
  os_info = d.os_info;
  device_type = d.device_type;
  software_version = d.software_version;
}

-- The polling of a device is switched off, or back to the default.
unfoldable pub toggle_polling : Device → DeviceUpdate
unfolding update_body
toggle_polling d =
    update_body d
      (elim d.polling_enabled [ none ↦ some false | some b ↦ if b then some false else none ])
