-- ===== src/Tests/Webui/Pages.antt =====
-- nexus/webui/src: the forms, the live log, the VLAN lists, the client and the app at sample values.
use jaspy.Prelude.{
  ℕ, true, false, none, some, List, [], ◌∷◌, length, ◌≡◌, ◌≢◌, refl, arith, ◌≤◌, put,
}
use jaspy.Webui.Text.Split.{has_char}
use jaspy.Webui.Discovery.{DiscoveryConfig, DeviceUpdate, to_form, from_form, new_device_body}
use jaspy.Webui.Discovery.Forms.{from_form-to_form}
use jaspy.Webui.Discovery.NewDevice.{IsCut, new_device_body_parts}
use jaspy.Webui.LiveLog.{LogEvent, open_log, frame, max_lines, slice_last, log_after}
use jaspy.Webui.LiveLog.Tail.{since_open, log_after_tail}
use jaspy.Webui.DeviceDetail.{segments, format_vlan_ranges}
use jaspy.Webui.DeviceDetail.Ranges.{expand, Apart, expand-segments}
use jaspy.Webui.Client.{format_uptime, vlan_name_label}
use jaspy.Tests.Webui.Browser.{browser, browser-TrimsSpace}

abbrev config : DiscoveryConfig
config = record {
  root_device = some "core.example.net";
  community = none;
  dns_domains = "example.net" ∷ "example.org" ∷ [];
  ignore = "lab1" ∷ [];
  remap = ("sw1", "switch1") ∷ [];
  topology_stable = true;
  periodic_enabled = false;
  interval_secs = 3600;
}

through_the_form : from_form browser (to_form config) ≡ config
unfolding from_form to_form browser put
through_the_form = refl

lists_through_the_form :
    ((from_form browser (to_form config)).dns_domains ≡ config.dns_domains)
    × ((from_form browser (to_form config)).ignore ≡ config.ignore)
unfolding browser has_char
lists_through_the_form =
    from_form-to_form browser config browser-TrimsSpace
      (
        record { whole = refl; trimmed = refl; filled = refl },
        (record { whole = refl; trimmed = refl; filled = refl }, tt),
      )
      (λ e. ground (arith, e)) (record { whole = refl; trimmed = refl; filled = refl }, tt)
      (λ e. ground (arith, e))

abbrev added : DeviceUpdate
added = record {
  name = "sw9";
  dns_domain = "example.net";
  snmp_community = none;
  base_mac = none;
  polling_enabled = none;
  os_info = none;
  device_type = none;
  software_version = none;
}

parts_of_a_device :
    IsCut "." (browser.trim " sw9.example.net") added.name added.dns_domain
    × (added.name ≢ "")
    × (added.dns_domain ≢ "")
unfolding new_device_body browser
parts_of_a_device = new_device_body_parts browser " sw9.example.net" "" added refl

no_domain : new_device_body browser "sw9." "" ≡ none
unfolding new_device_body browser
no_domain = refl

abbrev line : ℕ → LogEvent
line n = frame (some (record { ts = n; line = "up" }))

abbrev session : List LogEvent
session = open_log ∷ line 1 ∷ line 2 ∷ open_log ∷ line 1 ∷ frame none ∷ []

log_after_tail_example :
    (log_after session [] ≡ slice_last max_lines (since_open session []))
    × (length (log_after session []) ≤ max_lines)
log_after_tail_example = log_after_tail session

abbrev vlans : List ℕ
vlans = 1 ∷ 10 ∷ 11 ∷ 12 ∷ 20 ∷ []

ranges_shown : format_vlan_ranges browser vlans ≡ "1, 10-12, 20"
unfolding format_vlan_ranges browser
ranges_shown = refl

expand-segments_example : (expand (segments vlans) ≡ vlans) × Apart (segments vlans)
expand-segments_example = expand-segments vlans

a_day : format_uptime browser 90061 0 ≡ "1d 1h 1m"
unfolding format_uptime browser
a_day = refl

disagreeing : vlan_name_label ("office" ∷ "guests" ∷ []) ≡ some "office / guests"
unfolding vlan_name_label
disagreeing = refl
