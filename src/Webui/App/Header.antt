-- ===== src/Webui/App/Header.antt =====
-- nexus/webui/src/App.tsx: the header, the links of the sidebar and the pages behind them.
use jaspy.Prelude.{
  ℕ, Bool, false, not, String, Option, none, some, List, [], ◌∷◌, if◌then◌else◌, str_eq, str_append,
  ltb, Dict,
}
use jaspy.Webui.Platform.{Platform}
use jaspy.Webui.Badges.{Badge, badge_ok, badge_bad, badge_muted}

pub record Summary : Type 0 where
  pub state_id : ℕ
  pub version : String
  pub startup_time : ℕ
  pub event_name : Option String
  pub device_count : ℕ
  pub devices_up : ℕ
  pub devices_down : ℕ
  pub devices_unknown : ℕ

abbrev pub nav : Dict String
nav =
    ("/", "Dashboard")
    ∷ ("/issues", "Issues")
    ∷ ("/devices", "Devices")
    ∷ ("/vlans", "VLANs")
    ∷ ("/stp", "STP")
    ∷ ("/discovery", "Discovery")
    ∷ ("/clients", "Client locations")
    ∷ ("/maintenance", "Maintenance")
    ∷ []

pub data PageName : Type 0 where
  dashboard issues devices device_detail vlans stp discovery client_locations maintenance : PageName

abbrev pub routes : Dict PageName
routes =
    ("/", dashboard)
    ∷ ("/issues", issues)
    ∷ ("/devices", devices)
    ∷ ("/devices/:fqdn", device_detail)
    ∷ ("/vlans", vlans)
    ∷ ("/stp", stp)
    ∷ ("/discovery", discovery)
    ∷ ("/clients", client_locations)
    ∷ ("/maintenance", maintenance)
    ∷ []

-- A text that is missing or empty tests as false.
abbrev if_text : Option String → (String → String) → String → String
if_text none shown otherwise = otherwise
if_text (some s) shown otherwise = if str_eq s "" then otherwise else shown s

unfoldable pub brand : Option String → String
brand device_fqdn = if_text device_fqdn (λ fqdn. str_append "jaspy — " fqdn) "jaspy"

unfoldable pub event_text : Option Summary → String
event_text none = "no event"
event_text (some s) = elim s.event_name [ none ↦ "no event" | some name ↦ name ]

unfoldable pub header_badges : Platform → Summary → List Badge
header_badges platform s =
    let unknown : Badge = record {
      class = badge_muted;
      text = str_append (platform.show s.devices_unknown) " unknown";
      title = some "devices with unknown state";
    } in
    let up : Badge = record {
      class = badge_ok;
      text = str_append (platform.show s.devices_up) " up";
      title = some "devices up";
    } in
    let down : Badge = record {
      class = badge_bad;
      text = str_append (platform.show s.devices_down) " down";
      title = some "devices down";
    } in
    up ∷ down ∷ (if ltb 0 s.devices_unknown then unknown ∷ [] else [])

-- The sidebar: the button toggles it, a press beside it or on a link closes it.
pub data NavEvent : Type 0 where
  press_hamburger press_backdrop press_link : NavEvent

unfoldable pub nav_step : NavEvent → Bool → Bool
nav_step press_hamburger nav_open = not nav_open
nav_step press_backdrop nav_open = false
nav_step press_link nav_open = false

unfoldable pub megaexcel_link : Option String → Option String
megaexcel_link none = none
megaexcel_link (some url) =
    let link = str_append url "/auth?I=kissa123" in if str_eq url "" then none else some link
