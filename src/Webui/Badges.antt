-- ===== src/Webui/Badges.antt =====
-- nexus/webui/src/components/StatusBadge.tsx and SyncIndicator.tsx: the class, the text and the title
-- of each badge.
use jaspy.Prelude.{
  ℕ, Bool, true, false, ◌||◌, String, Option, none, some, [], ◌∷◌, if◌then◌else◌, str_eq,
  str_append,
}
use jaspy.Webui.Platform.{Platform}
use jaspy.Webui.Text.{join}
use jaspy.Webui.IssueTypes.{Severity, warn, bad}
use jaspy.Webui.DeviceTypes.{SnmpHealth, slow, dead}
use jaspy.Webui.LiveSocket.{LiveStatus, live, connecting, down}

pub data Class : Type 0 where
  badge_ok badge_warn badge_bad badge_muted : Class

pub record Badge : Type 0 where
  pub class : Class
  pub text : String
  pub title : Option String

abbrev pub badge : Class → String → Badge
badge c t = record { class = c; text = t; title = none }

unfoldable pub up_badge : Option Bool → Badge
up_badge none = badge badge_muted "unknown"
up_badge (some true) = badge badge_ok "up"
up_badge (some false) = badge badge_bad "down"

unfoldable pub err_disabled_badge : Option String → Badge
unfolding join
err_disabled_badge cause =
    let text : String = elim cause [ none ↦ "" | some c ↦ c ] in
    let given : Badge = record {
      class = badge_bad;
      text = str_append "err-disabled · " text;
      title = some (str_append "err-disabled: " text);
    } in
    if str_eq text ""
    then record { class = badge_bad; text = "err-disabled"; title = some "err-disabled" }
    else given

unfoldable pub polling_badge : Option Bool → Badge
polling_badge none = badge badge_muted "polling default"
polling_badge (some true) = badge badge_muted "polling on"
polling_badge (some false) = badge badge_warn "polling off"

unfoldable pub stp_state_class : String → Class
stp_state_class state =
    if str_eq state "forwarding"
    then badge_ok
    else if str_eq state "learning" || str_eq state "listening"
    then badge_warn
    else if str_eq state "broken"
    then badge_bad
    else badge_muted

unfoldable pub health_badge : Severity → Option String → Badge
health_badge warn label = badge badge_warn (elim label [ none ↦ "⚠" | some l ↦ l ])
health_badge bad label = badge badge_bad (elim label [ none ↦ "⚠ issues" | some l ↦ l ])

-- `one_decimal ms` is `(ms / 1000).toFixed(1)`.
unfoldable pub snmp_health_badge : Platform → (ℕ → String) → Option SnmpHealth → Option Badge
unfolding join
snmp_health_badge platform one_decimal none = none
snmp_health_badge platform one_decimal (some h) =
    let secs = one_decimal h.effective_timeout_ms in
    let rtt : String = elim h.ewma_latency_ms [
      | none ↦ ""
      | some ms ↦ join "" (", avg " ∷ platform.show ms ∷ "ms" ∷ [])
    ] in
    elim h.status [
      | dead ↦ some (record {
        class = badge_bad;
        text = "SNMP down";
        title = some (join "" ("SNMP not responding (timeout " ∷ secs ∷ "s)" ∷ []));
      })
      | slow ↦ some (record {
        class = badge_warn;
        text = "SNMP slow";
        title = some (join "" ("SNMP slow: timeout raised to " ∷ secs ∷ "s" ∷ rtt ∷ []));
      })
    ]

unfoldable pub sync_label : LiveStatus → String
sync_label live = "Live — up to date"
sync_label connecting = "Reconnecting…"
sync_label down = "Offline — data may be stale"
