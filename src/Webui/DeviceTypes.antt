-- ===== src/Webui/DeviceTypes.antt =====
-- nexus/webui/src/api/types.ts: devices, their interfaces and VLANs. Rates, percentages and latencies
-- are carried along as whole numbers; nothing here computes with them.
use jaspy.Prelude.{ℕ, Bool, String, Option, List}
use jaspy.Webui.Types.{InterfaceConnection, CdpNeighbor}
use jaspy.Webui.IssueTypes.{Severity}

pub data SnmpStatus : Type 0 where
  slow dead : SnmpStatus

pub record SnmpHealth : Type 0 where
  pub status : SnmpStatus
  pub effective_timeout_ms : ℕ
  pub ewma_latency_ms : Option ℕ

pub record Device : Type 0 where
  pub id : ℕ
  pub fqdn : String
  pub name : String
  pub dns_domain : String
  pub snmp_community : Option String
  pub base_mac : Option String
  pub polling_enabled : Option Bool
  pub os_info : Option String
  pub device_type : Option String
  pub software_version : Option String
  pub up : Option Bool
  pub seconds_since_last_poll : Option ℕ
  pub interface_count : ℕ
  pub interface_health : Option Severity
  pub snmp_health : Option SnmpHealth

pub record InterfaceHealth : Type 0 where
  pub severity : Option Severity
  pub flapping : Bool
  pub flap_count : ℕ
  pub last_flap_secs_ago : Option ℕ
  pub in_errors : ℕ
  pub out_errors : ℕ
  pub discards : ℕ
  pub discards_high : Bool
  pub speed_change_count : ℕ
  pub last_speed_change : Option (Option ℕ × ℕ)
  pub peak_utilization_pct : Option ℕ
  pub high_utilization : Bool
  pub rx_bps_avg : Option ℕ
  pub tx_bps_avg : Option ℕ
  pub stale : Bool
  pub counter_window_secs : ℕ
  pub flap_window_secs : ℕ
  pub util_window_secs : ℕ
  pub throughput_window_secs : ℕ

pub record InterfacePoe : Type 0 where
  pub status : String
  pub admin_enabled : Bool
  pub poe_class : Option ℕ
  pub power_mw : Option ℕ
  pub allocated_mw : Option ℕ
  pub max_drawn_mw : Option ℕ
  pub priority : Option String

pub record Interface : Type 0 where
  pub id : ℕ
  pub index : ℕ
  pub name : String
  pub display_name : Option String
  pub alias : Option String
  pub description : Option String
  pub interface_type : String
  pub polling_enabled : Option Bool
  pub speed_override : Option ℕ
  pub connected_to : Option InterfaceConnection
  pub cdp_neighbor : Option CdpNeighbor
  pub up : Option Bool
  pub speed : Option ℕ
  pub admin_up : Option Bool
  pub err_disabled : Bool
  pub err_disable_cause : Option String
  pub err_disable_recover_secs : Option ℕ
  pub in_octets : Option ℕ
  pub out_octets : Option ℕ
  pub in_errors : Option ℕ
  pub out_errors : Option ℕ
  pub out_discards : Option ℕ
  pub native_vlan : Option ℕ
  pub tagged_vlans : Option (List ℕ)
  pub port_channel : Option String
  pub health : Option InterfaceHealth
  pub media : Option String
  pub poe : Option InterfacePoe

pub record StpPort : Type 0 where
  pub vlan : ℕ
  pub stp_port_id : ℕ
  pub interface_name : Option String
  pub interface_id : Option ℕ
  pub role : String
  pub state : String
  pub enabled : Option Bool
  pub designated_cost : ℕ
  pub path_cost : ℕ
  pub priority : ℕ
  pub forward_transitions : ℕ
  pub timestamp : ℕ

pub record VlanDevice : Type 0 where
  pub fqdn : String
  pub name : Option String
  pub native_ports : ℕ
  pub tagged_ports : ℕ

pub data VlanPolicyLevel : Type 0 where
  quiet normal sensitive : VlanPolicyLevel

pub record VlanSummary : Type 0 where
  pub id : ℕ
  pub names : List String
  pub devices : List VlanDevice
  pub policy_level : VlanPolicyLevel
