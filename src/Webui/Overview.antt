-- ===== src/Webui/Overview.antt =====
-- nexus/webui/src/pages/Dashboard.tsx and pages/ClientLocations.tsx: what the pages show of the
-- answers.
use jaspy.Prelude.{
  ℕ, ◌-◌, ◌/◌, Bool, false, not, ◌&&◌, ◌||◌, String, Option, none, some, List, [], ◌∷◌,
  if◌then◌else◌, str_eq, str_append, ltb, ◌==◌, zero, suc,
}
use jaspy.Webui.Platform.{Platform}
use jaspy.Webui.IssueTypes.{Issue}
use jaspy.Webui.DeviceTypes.{Device}
use jaspy.Webui.Discovery.{DiscoveryConfig}
use jaspy.Webui.Issues.Order.{keep}
use jaspy.Webui.Tables.{contains, needle_of}

-- `ago` of the dashboard: the largest unit alone.
unfoldable pub short_ago : Platform → ℕ → ℕ → String
short_ago platform now ms =
    let s = (now - ms) / 1000 in
    let m = s / 60 in
    let h = m / 60 in
    if ltb s 60
    then str_append (platform.show s) "s ago"
    else if ltb m 60
    then str_append (platform.show m) "m ago"
    else if ltb h 24
    then str_append (platform.show h) "h ago"
    else str_append (platform.show (h / 24)) "d ago"

-- `slice(0, n)`
take : {A : Type 0} → ℕ → List A → List A
take zero xs = []
take (suc n) [] = []
take (suc n) (x ∷ xs) = x ∷ take n xs

-- The issues that are counted, and those that are listed.
unfoldable pub active_issues : List Issue → List Issue
active_issues issues = keep (λ i. not i.acknowledged) issues

unfoldable pub recent_issues : List Issue → List Issue
unfolding active_issues take
recent_issues issues = take 10 (active_issues issues)

abbrev is_given : Option String → Bool
is_given none = false
is_given (some s) = not (str_eq s "")

-- `configReady`
unfoldable pub config_ready : Option DiscoveryConfig → Bool
config_ready none = false
config_ready (some c) = is_given c.root_device && is_given c.community

-- Whether a run can be started, with a status that says whether one runs.
unfoldable pub can_run : Bool → Bool → Option DiscoveryConfig → Bool
unfolding config_ready
can_run running pending config = not (running || (pending || not (config_ready config)))

-- The delay of the next fetch of the status, in milliseconds.
unfoldable pub status_interval : Option Bool → ℕ
status_interval none = 10000
status_interval (some running) = if running then 2000 else 10000

pub record ClientLocation : Type 0 where
  pub id : ℕ
  pub device_id : ℕ
  pub ip_address : String
  pub port_info : String
  pub hw_address : String

-- `deviceById`: of devices with one id the last counts.
unfoldable pub device_by_id : List Device → ℕ → Option String
device_by_id [] id = none
device_by_id (d ∷ devices) id = elim (device_by_id devices id) [
  | some fqdn ↦ some fqdn
  | none ↦ if d.id == id then some d.fqdn else none
]

module _ (platform : Platform) where
  unfoldable pub location_matches : List Device → String → ClientLocation → Bool
  unfolding device_by_id
  location_matches devices needle l =
      let fqdn : String = elim (device_by_id devices l.device_id) [ none ↦ "" | some f ↦ f ] in
      str_eq needle ""
      || contains platform l.ip_address needle
      || contains platform l.hw_address needle
      || contains platform l.port_info needle
      || contains platform fqdn needle

  unfoldable pub location_rows : List ClientLocation → List Device → String → List ClientLocation
  unfolding location_matches
  location_rows locations devices filter =
      platform.sort (λ a b. platform.locale_compare a.ip_address b.ip_address)
        (keep (location_matches devices (needle_of platform filter)) locations)

  unfoldable pub location_switch : List Device → ClientLocation → String
  unfolding device_by_id
  location_switch devices l =
      let number = str_append "device #" (platform.show l.device_id) in
      elim (device_by_id devices l.device_id) [
        | none ↦ number
        | some fqdn ↦ if str_eq fqdn "" then number else fqdn
      ]
