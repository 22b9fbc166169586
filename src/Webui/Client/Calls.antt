-- ===== src/Webui/Client/Calls.antt =====
-- nexus/webui/src/api/client.ts: the calls of the API, and the socket of a live log. A call is what
-- its request is made of: the method that `init` names, the path and the value that is written as the
-- body.
use jaspy.Prelude.{
  ℕ, Bool, true, false, String, Option, none, some, List, [], ◌∷◌, str_eq, str_append,
  if◌then◌else◌,
}
use jaspy.Webui.Text.{join}
use jaspy.Webui.DeviceTypes.{VlanPolicyLevel}
use jaspy.Webui.Discovery.{DeviceUpdate, DiscoveryConfig}
pub mod Routes
pub mod Served

-- `encodeURIComponent`, and the text of a number.
pub record Encoding : Type 0 where
  pub encode : String → String
  pub show : ℕ → String

pub record VlanPolicyRequest : Type 0 where
  pub vlan_id : ℕ
  pub level : VlanPolicyLevel

-- A note that is left out is as one that is null.
pub record StpExpectedRootRequest : Type 0 where
  pub vlan : ℕ
  pub root_fqdn : String
  pub note : Option String

pub record IssueAckRequest : Type 0 where
  pub issue_key : String
  pub note : Option String

pub data Body : Type 0 where
  polling_state : Bool → Body
  device_update : DeviceUpdate → Body
  event_info : Option String → Body
  discovery_config : DiscoveryConfig → Body
  no_overrides : Body
  single_device : String → Body
  vlan_policy : VlanPolicyRequest → Body
  expected_root : StpExpectedRootRequest → Body
  issue_ack : IssueAckRequest → Body
  issue_type : String → Body

pub data ApiCall : Type 0 where
  summary system system_perf system_env : ApiCall
  set_polling : Bool → ApiCall
  devices : ApiCall
  device device_entity device_snmp_sessions delete_device poll_vlans : String → ApiCall
  create_device : DeviceUpdate → ApiCall
  update_device : String → DeviceUpdate → ApiCall
  client_locations event reset : ApiCall
  put_event : Option String → ApiCall
  discovery_status get_discovery_config run_discovery : ApiCall
  put_discovery_config : DiscoveryConfig → ApiCall
  run_single_device_discovery : String → ApiCall
  vlans stp issues issue_types : ApiCall
  set_vlan_policy : VlanPolicyRequest → ApiCall
  stp_tree : ℕ → ApiCall
  mark_expected_root unmark_expected_root : StpExpectedRootRequest → ApiCall
  ack_issue unack_issue : IssueAckRequest → ApiCall
  suppress_issue_type unsuppress_issue_type : String → ApiCall

-- The `method` and the `body` of the second argument of `request`.
unfoldable pub init : ApiCall → Option String × Option Body
init (set_polling enabled) = (some "PUT", some (polling_state enabled))
init (create_device body) = (some "POST", some (device_update body))
init (update_device fqdn body) = (some "PUT", some (device_update body))
init (delete_device fqdn) = (some "DELETE", none)
init (put_event name) = (some "PUT", some (event_info name))
init reset = (some "POST", none)
init (put_discovery_config body) = (some "PUT", some (discovery_config body))
init run_discovery = (some "POST", some no_overrides)
init (run_single_device_discovery fqdn) = (some "POST", some (single_device fqdn))
init (poll_vlans fqdn) = (some "POST", none)
init (set_vlan_policy body) = (some "POST", some (vlan_policy body))
init (mark_expected_root body) = (some "POST", some (expected_root body))
init (unmark_expected_root body) = (some "POST", some (expected_root body))
init (ack_issue body) = (some "POST", some (issue_ack body))
init (unack_issue body) = (some "POST", some (issue_ack body))
init (suppress_issue_type kind) = (some "POST", some (issue_type kind))
init (unsuppress_issue_type kind) = (some "POST", some (issue_type kind))
init _ = (none, none)

module _ (encoding : Encoding) where
  abbrev of_device : String → List String → List String
  of_device fqdn rest = "devices" ∷ encoding.encode fqdn ∷ rest

  -- The parts of the path behind `/api/v1`.
  unfoldable pub segments : ApiCall → List String
  segments summary = "summary" ∷ []
  segments system = "system" ∷ []
  segments system_perf = "system" ∷ "perf" ∷ []
  segments (set_polling enabled) = "system" ∷ "polling" ∷ []
  segments system_env = "system" ∷ "env" ∷ []
  segments devices = "devices" ∷ []
  segments (device fqdn) = of_device fqdn []
  segments (device_entity fqdn) = of_device fqdn ("entity" ∷ [])
  segments (device_snmp_sessions fqdn) = of_device fqdn ("snmp-sessions" ∷ [])
  segments (create_device body) = "devices" ∷ []
  segments (update_device fqdn body) = of_device fqdn []
  segments (delete_device fqdn) = of_device fqdn []
  segments client_locations = "clientlocations" ∷ []
  segments event = "event" ∷ []
  segments (put_event name) = "event" ∷ []
  segments reset = "reset" ∷ []
  segments discovery_status = "discovery" ∷ "status" ∷ []
  segments get_discovery_config = "discovery" ∷ "config" ∷ []
  segments (put_discovery_config body) = "discovery" ∷ "config" ∷ []
  segments run_discovery = "discovery" ∷ "run" ∷ []
  segments (run_single_device_discovery fqdn) = "discovery" ∷ "run" ∷ []
  segments (poll_vlans fqdn) = of_device fqdn ("vlans" ∷ "poll" ∷ [])
  segments vlans = "vlans" ∷ []
  segments (set_vlan_policy body) = "vlans" ∷ "policy" ∷ []
  segments stp = "stp" ∷ []
  segments (stp_tree vlan) = "stp" ∷ encoding.show vlan ∷ []
  segments (mark_expected_root body) = "stp" ∷ "expected-roots" ∷ []
  segments (unmark_expected_root body) = "stp" ∷ "expected-roots" ∷ "remove" ∷ []
  segments issues = "issues" ∷ []
  segments (ack_issue body) = "issues" ∷ "ack" ∷ []
  segments (unack_issue body) = "issues" ∷ "unack" ∷ []
  segments issue_types = "issues" ∷ "types" ∷ []
  segments (suppress_issue_type kind) = "issues" ∷ "suppress" ∷ []
  segments (unsuppress_issue_type kind) = "issues" ∷ "unsuppress" ∷ []

  -- The path of the request.
  unfoldable pub path : ApiCall → String
  unfolding segments join
  path c = str_append "/" (join "/" ("api" ∷ "v1" ∷ segments c))

  -- `protocol` and `host` are those of the page's location.
  unfoldable pub live_log_socket_url : String → String → String → String
  unfolding join
  live_log_socket_url protocol host topic =
      let proto = if str_eq protocol "https:" then "wss:" else "ws:" in
      join "" (proto ∷ "//" ∷ host ∷ "/api/v1/ws/logs/" ∷ encoding.encode topic ∷ [])

-- The method that is sent.
unfoldable pub method : ApiCall → String
unfolding init
method c = elim (init c).0 [ none ↦ "GET" | some m ↦ m ]
