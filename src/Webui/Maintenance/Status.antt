-- ===== src/Webui/Maintenance/Status.antt =====
-- nexus/webui/src/pages/Maintenance.tsx: the panel of the system's status and the switch of the polling.
use jaspy.Prelude.{
  ℕ, Bool, true, false, not, ◌&&◌, String, Option, none, some, List, [], ◌∷◌, ◌++◌, if◌then◌else◌,
  str_append,
}
use jaspy.Webui.Platform.{Platform}
use jaspy.Webui.Text.{join}
use jaspy.Webui.Badges.{Badge, badge, badge_ok, badge_warn, badge_bad, badge_muted}
use jaspy.Webui.Parts.{Part, plain, muted, badge_part}

pub data SnmpMode : Type 0 where
  snmpbot embedded : SnmpMode

pub data StatusSource : Type 0 where
  pinger poller : StatusSource

pub record SystemStatus : Type 0 where
  pub version : String
  pub startup_time : ℕ
  pub snmpbot_url : String
  pub snmpbot_connected : Option Bool
  pub snmp_mode : SnmpMode
  pub db_url : String
  pub db_backend : String
  pub db_connected : Bool
  pub db_migrations_pending : Option Bool
  pub poller_enabled : Bool
  pub poll_loop_msecs : ℕ
  pub pinger_enabled : Bool
  pub polling_enabled : Bool
  pub device_status_source : StatusSource
  pub entitypoller_enabled : Bool
  pub entitypoller_interval_msecs : ℕ
  pub entitypoller_sensors_enabled : Bool
  pub entitypoller_stp_enabled : Bool
  pub vlanpoller_enabled : Bool
  pub vlanpoller_interval_msecs : ℕ
  pub mqtt_enabled : Bool
  pub mqtt_broker : Option String
  pub mqtt_connected : Option Bool
  pub discovery_periodic_enabled : Bool
  pub discovery_interval_secs : ℕ
  pub weathermap_dir : Option String
  pub megaexcel_url : Option String

-- A row of the panel: its label and what is shown.
abbrev pub Fact : Type 0
Fact = String × List Part

unfoldable pub enabled_badge : Bool → Part
enabled_badge true = badge_part (badge badge_ok "enabled")
enabled_badge false = badge_part (badge badge_muted "disabled")

unfoldable pub paused_badge : Bool → List Part
paused_badge true = badge_part (badge badge_warn "paused") ∷ []
paused_badge false = []

abbrev on_off : Bool → String
on_off true = "on"
on_off false = "off"

-- A badge for each of true, false and unknown.
connected_badge : Badge → Badge → Badge → Option Bool → Part
connected_badge up down unknown none = badge_part unknown
connected_badge up down unknown (some true) = badge_part up
connected_badge up down unknown (some false) = badge_part down

plain_if : Bool → String → List Part
plain_if true t = plain t ∷ []
plain_if false t = []

-- A collector is paused when it is configured on and the polling is off.
unfoldable pub collector : SystemStatus → Bool → List Part
unfolding enabled_badge paused_badge
collector sys enabled = enabled_badge enabled ∷ paused_badge (enabled && not sys.polling_enabled)

-- `show_secs ms` is the text of `ms / 1000`.
module _ (platform : Platform) (show_secs : ℕ → String) where
  every : Bool → String → ℕ → List Part
  unfolding join plain_if
  every enabled before ms = plain_if enabled (join "" (before ∷ show_secs ms ∷ "s" ∷ []))

  unfoldable pub poller_row : SystemStatus → Fact
  unfolding collector every
  poller_row sys = (
    "SNMP poller",
    collector sys sys.poller_enabled
        ++ every sys.poller_enabled " polling every " sys.poll_loop_msecs,
  )

  unfoldable pub pinger_row : SystemStatus → Fact
  unfolding collector
  pinger_row sys =
      let source : String = elim sys.device_status_source [
        | pinger ↦ "ICMP ping"
        | poller ↦ "SNMP poll responses"
      ] in
      (
        "Pinger",
        collector sys sys.pinger_enabled
            ++ (plain (str_append " — device up/down from " source) ∷ []),
      )

  unfoldable pub entity_row : SystemStatus → Fact
  unfolding collector plain_if join
  entity_row sys =
      let details = join "" (
        " every "
        ∷ show_secs sys.entitypoller_interval_msecs
        ∷ "s (sensors "
        ∷ on_off sys.entitypoller_sensors_enabled
        ∷ ", STP "
        ∷ on_off sys.entitypoller_stp_enabled
        ∷ ")"
        ∷ []) in
      (
        "Entity poller",
        collector sys sys.entitypoller_enabled ++ plain_if sys.entitypoller_enabled details,
      )

  unfoldable pub vlan_row : SystemStatus → Fact
  unfolding collector every
  vlan_row sys = (
    "VLAN poller",
    collector sys sys.vlanpoller_enabled
        ++ every sys.vlanpoller_enabled " every " sys.vlanpoller_interval_msecs,
  )

  unfoldable pub discovery_row : SystemStatus → Fact
  unfolding enabled_badge
  discovery_row sys =
      let interval =
        str_append " every " (str_append (platform.show sys.discovery_interval_secs) "s") in
      let details : String =
        if sys.discovery_periodic_enabled then interval else " — manual runs only" in
      ("Periodic discovery", enabled_badge sys.discovery_periodic_enabled ∷ plain details ∷ [])

-- A text that may be missing shows nothing then.
text_or_blank : Option String → String
text_or_blank none = ""
text_or_blank (some s) = s

unfoldable pub mqtt_row : SystemStatus → Fact
unfolding connected_badge text_or_blank
mqtt_row sys =
    let connected =
      connected_badge (badge badge_ok "connected") (badge badge_bad "disconnected")
        (badge badge_warn "connecting…") sys.mqtt_connected in
    let disabled = badge_part (badge badge_muted "disabled") ∷ [] in
    (
      "MQTT events",
      if sys.mqtt_enabled then connected ∷ plain (text_or_blank sys.mqtt_broker) ∷ [] else disabled,
    )

-- The row of the backend, and that of snmpbot where it is the backend.
unfoldable pub snmp_rows : SystemStatus → List Fact
unfolding connected_badge
snmp_rows sys = elim sys.snmp_mode [
  | embedded ↦
      ("SNMP backend", badge_part (badge badge_muted "embedded") ∷ plain " in-process SNMP" ∷ [])
      ∷ []
  | snmpbot ↦
      (
        "SNMP backend",
        badge_part (badge badge_muted "snmpbot") ∷ plain " external service over HTTP" ∷ [],
      )
      ∷ (
        "snmpbot status",
        connected_badge (badge badge_ok "responding") (badge badge_bad "not responding")
              (badge badge_warn "checking…") sys.snmpbot_connected
            ∷ plain sys.snmpbot_url
            ∷ [],
      )
      ∷ []
]

unfoldable pub database_row : SystemStatus → Fact
unfolding join
database_row sys =
    let connected =
      if sys.db_connected then badge badge_ok "connected" else badge badge_bad "unreachable" in
    let pending : List Part = elim sys.db_migrations_pending [
      | none ↦ []
      | some b ↦ if b then badge_part (badge badge_warn "migrations pending") ∷ [] else []
    ] in
    (
      "Database",
      badge_part connected ∷ pending
          ++ (plain (join "" (sys.db_backend ∷ " · " ∷ sys.db_url ∷ [])) ∷ []),
    )

unfoldable pub weathermap_row : SystemStatus → Fact
weathermap_row sys = elim sys.weathermap_dir [
  | none ↦ ("Weathermap statics", muted "directory not found — not served" ∷ [])
  | some dir ↦ ("Weathermap statics", plain dir ∷ [])
]

unfoldable pub status_rows : Platform → (ℕ → String) → SystemStatus → List Fact
unfolding poller_row pinger_row entity_row vlan_row discovery_row mqtt_row snmp_rows database_row
    weathermap_row
status_rows platform show_secs sys =
    poller_row platform show_secs sys
      ∷ pinger_row platform show_secs sys
      ∷ entity_row platform show_secs sys
      ∷ vlan_row platform show_secs sys
      ∷ discovery_row platform show_secs sys
      ∷ mqtt_row sys
      ∷ snmp_rows sys
    ++ (database_row sys ∷ weathermap_row sys ∷ [])
