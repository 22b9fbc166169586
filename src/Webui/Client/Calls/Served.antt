-- ===== src/Webui/Client/Calls/Served.antt =====
-- The client and the server agree on methods and paths.
use jaspy.Prelude.{ℕ, ◌<◌, ◌^◌, false, true, String, none, [], ◌∷◌, ◌≡◌, str_eq}
use jaspy.Webui.Text.Split.{has_char}
use jaspy.Webui.Client.Calls.{
  Encoding, ApiCall, summary, system, system_perf, system_env, set_polling, devices, device,
  device_entity, device_snmp_sessions, delete_device, poll_vlans, create_device, update_device,
  client_locations, event, reset, put_event, discovery_status, get_discovery_config, run_discovery,
  put_discovery_config, run_single_device_discovery, vlans, stp, issues, issue_types,
  set_vlan_policy, stp_tree, mark_expected_root, unmark_expected_root, ack_issue, unack_issue,
  suppress_issue_type, unsuppress_issue_type,
}
use jaspy.Webui.Client.Calls.Routes
use jaspy.Webui.Client.Calls.Routes.{Reader, Handler, Route}

-- A part of a path: not empty, and without a slash.
abbrev IsPart : String → Type 0
IsPart s = (has_char "/" s ≡ false) × (str_eq s "" ≡ false)

-- What the calls rely on: an encoded text has no slash, only the empty text is encoded as the empty
-- one, a number is written with some characters other than slashes, and one of less than 64 bits is
-- read as an `i64`.
pub record Encodes (encoding : Encoding) (reader : Reader) : Type 0 where
  pub encode_slash : (s : String) → has_char "/" (encoding.encode s) ≡ false
  pub encode_blank : (s : String) → str_eq (encoding.encode s) "" ≡ str_eq s ""
  pub show_slash : (n : ℕ) → has_char "/" (encoding.show n) ≡ false
  pub show_blank : (n : ℕ) → str_eq (encoding.show n) "" ≡ false
  pub show_i64 : (n : ℕ) → n < 2 ^ 63 → reader.is_i64 (encoding.show n) ≡ true

-- The device that a path names is not the empty text, and the VLAN is an `i64`.
abbrev pub IsInRange : ApiCall → Type 0
IsInRange (device fqdn) = str_eq fqdn "" ≡ false
IsInRange (device_entity fqdn) = str_eq fqdn "" ≡ false
IsInRange (device_snmp_sessions fqdn) = str_eq fqdn "" ≡ false
IsInRange (update_device fqdn body) = str_eq fqdn "" ≡ false
IsInRange (delete_device fqdn) = str_eq fqdn "" ≡ false
IsInRange (poll_vlans fqdn) = str_eq fqdn "" ≡ false
IsInRange (stp_tree vlan) = vlan < 2 ^ 63
IsInRange _ = Unit

-- The handler that each call is meant for.
abbrev pub handler_of : ApiCall → Handler
handler_of summary = Routes.summary
handler_of system = Routes.system_status
handler_of system_perf = Routes.system_perf
handler_of system_env = Routes.system_env
handler_of (set_polling enabled) = Routes.system_polling_set
handler_of devices = Routes.devices
handler_of (device fqdn) = Routes.device_detail
handler_of (device_entity fqdn) = Routes.device_entity
handler_of (device_snmp_sessions fqdn) = Routes.device_snmp_sessions
handler_of (delete_device fqdn) = Routes.device_delete
handler_of (poll_vlans fqdn) = Routes.device_vlan_poll
handler_of (create_device body) = Routes.device_create
handler_of (update_device fqdn body) = Routes.device_update
handler_of client_locations = Routes.clientlocations
handler_of event = Routes.event_get
handler_of reset = Routes.reset
handler_of (put_event name) = Routes.event_put
handler_of discovery_status = Routes.discovery_status
handler_of get_discovery_config = Routes.discovery_get_config
handler_of run_discovery = Routes.discovery_run
handler_of (put_discovery_config body) = Routes.discovery_put_config
handler_of (run_single_device_discovery fqdn) = Routes.discovery_run
handler_of vlans = Routes.vlans
handler_of stp = Routes.stp_summary
handler_of issues = Routes.issues
handler_of issue_types = Routes.issue_types
handler_of (set_vlan_policy body) = Routes.vlan_policy_set
handler_of (stp_tree vlan) = Routes.stp_tree
handler_of (mark_expected_root body) = Routes.stp_expected_root_add
handler_of (unmark_expected_root body) = Routes.stp_expected_root_remove
handler_of (ack_issue body) = Routes.issue_ack
handler_of (unack_issue body) = Routes.issue_unack
handler_of (suppress_issue_type kind) = Routes.issue_suppress
handler_of (unsuppress_issue_type kind) = Routes.issue_unsuppress

abbrev tree_route : Route
tree_route = record {
  handler = Routes.stp_tree;
  verb = "GET";
  pattern = Routes.literal "api" ∷ Routes.literal "v1" ∷ Routes.literal "stp" ∷ Routes.number ∷ [];
  rank = none;
}
