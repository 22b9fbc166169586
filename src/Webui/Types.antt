-- ===== src/Webui/Types.antt =====
-- nexus/webui/src/api/types.ts: the records of the API that the modelled pages read. A field that
-- may be null is an `Option`; the numbers are non-negative integers.
use jaspy.Prelude.{ℕ, Bool, String, Option, List}

pub record InterfaceConnection : Type 0 where
  pub fqdn : String
  pub interface : String

pub record CdpNeighbor : Type 0 where
  pub device_id : String
  pub device_port : Option String

pub record StpBridge : Type 0 where
  pub vlan : ℕ
  pub root_priority : Option ℕ
  pub root_mac : Option String
  pub root_cost : Option ℕ
  pub root_port : Option ℕ
  pub root_port_interface_name : Option String
  pub topology_changes : Option ℕ
  pub time_since_topology_change_secs : Option ℕ
  pub timestamp : ℕ

pub record StpRootMismatchDetail : Type 0 where
  pub computed_root_fqdn : String
  pub computed_root_hostname : String
  pub computed_root_mac : Option String
  pub computed_root_priority : Option ℕ
  pub reported_root_mac : Option String
  pub reported_root_priority : Option ℕ
  pub reported_root_monitored : Bool
  pub reported_root_superior : Option Bool

pub record StpNode : Type 0 where
  pub fqdn : String
  pub depth : ℕ
  pub parent : Option String
  pub parent_interface : Option String
  pub root_port_interface_name : Option String
  pub root_port_state : Option String
  pub path_cost : Option ℕ
  pub reported : Option StpBridge
  pub root_mismatch : Bool
  pub root_mismatch_detail : Option StpRootMismatchDetail
  pub orphan : Bool

pub record StpBlockedLink : Type 0 where
  pub fqdn : String
  pub stp_port_id : ℕ
  pub interface_name : Option String
  pub role : String
  pub state : String
  pub path_cost : ℕ
  pub connected_to : Option InterfaceConnection

pub record StpRootClaim : Type 0 where
  pub fqdn : String
  pub hostname : String
  pub mac : Option String
  pub priority : Option ℕ
  pub preferred : Bool
  pub expected : Option Bool
  pub note : Option String

pub record StpLinkEnds : Type 0 where
  pub a_fqdn : String
  pub a_interface : String
  pub a_has_vlan : Bool
  pub b_fqdn : String
  pub b_interface : String
  pub b_has_vlan : Bool

pub record StpMultipleRootsDetail : Type 0 where
  pub roots : List StpRootClaim
  pub adjacent : Option Bool
  pub connecting_link : Option StpLinkEnds

pub record StpTree : Type 0 where
  pub vlan : ℕ
  pub roots : List String
  pub nodes : List StpNode
  pub blocked_links : List StpBlockedLink
  pub flags : List String
  pub names : List String
  pub multiple_roots_detail : Option StpMultipleRootsDetail
