-- ===== src/Webui/IssueTypes.antt =====
-- nexus/webui/src/api/types.ts: the issues of the API. Times are milliseconds since the epoch.
use jaspy.Prelude.{ℕ, Bool, String, Option, List}
use jaspy.Webui.Types.{InterfaceConnection, CdpNeighbor}

pub data Tone : Type 0 where
  good bad_tone warn_tone neutral : Tone

pub data IssueDetailValue : Type 0 where
  text : String → IssueDetailValue
  mac : String → Bool → IssueDetailValue
  device : String → String → IssueDetailValue
  interface : String → Option String → IssueDetailValue
  verdict : String → Tone → IssueDetailValue
  link : String → String → IssueDetailValue
  stp_root : String → String → Option String → Option ℕ → Bool → IssueDetailValue
  member :
      String
      → Option String
      → Option ℕ
      → Option String
      → Option InterfaceConnection
      → Option CdpNeighbor
      → IssueDetailValue

pub record IssueDetail : Type 0 where
  pub label : String
  pub value : IssueDetailValue

pub data Severity : Type 0 where
  warn bad : Severity

pub record Issue : Type 0 where
  pub issue_key : String
  pub fqdn : String
  pub hostname : String
  pub kind : String
  pub severity : Severity
  pub title : String
  pub description : String
  pub subject_label : Option String
  pub detail : List IssueDetail
  pub group_key : Option String
  pub first_seen : ℕ
  pub last_seen : ℕ
  pub acknowledged : Bool
  pub acked_at : Option ℕ
  pub acked_by : Option String
  pub note : Option String

-- The category is one of device, poe, interface, stp and lag.
pub record IssueType : Type 0 where
  pub kind : String
  pub category : String
  pub title : String
  pub description : String
  pub suppressed : Bool
