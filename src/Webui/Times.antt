-- ===== src/Webui/Times.antt =====
-- nexus/webui/src/pages/STP.tsx, pages/Issues.tsx and pages/Devices.tsx: how long ago something was.
use jaspy.Prelude.{
  ℕ, ◌+◌, ◌-◌, ◌*◌, ◌/◌, ◌%◌, ◌≤◌, ◌<◌, String, Option, none, some, [], ◌∷◌, if◌then◌else◌,
  str_append, ltb, arith,
}
use jaspy.Webui.Platform.{Platform}
use jaspy.Webui.Text.{join}

-- Seconds, minutes, hours or days, rounded to the nearest.
pub data Rounded : Type 0 where
  seconds minutes hours days : ℕ → Rounded

unfoldable pub rounded_ago : ℕ → Rounded
rounded_ago secs =
    if ltb secs 90
    then seconds secs
    else if ltb secs 5400
    then minutes ((secs + 30) / 60)
    else if ltb secs 129600
    then hours ((secs + 1800) / 3600)
    else days ((secs + 43200) / 86400)

-- Whole seconds, minutes, hours and minutes, or days and hours.
pub data Elapsed : Type 0 where
  in_seconds in_minutes : ℕ → Elapsed
  in_hours in_days : ℕ → ℕ → Elapsed

-- From two times in milliseconds; a time to come is now.
unfoldable pub elapsed : ℕ → ℕ → Elapsed
elapsed now ms =
    let s = (now - ms) / 1000 in
    let m = s / 60 in
    let h = m / 60 in
    if ltb s 60
    then in_seconds s
    else if ltb m 60
    then in_minutes m
    else if ltb h 24
    then in_hours h (m % 60)
    else in_days (h / 24) (h % 24)

module _ (platform : Platform) where
  unfoldable pub format_ago : ℕ → String
  unfolding rounded_ago
  format_ago secs = elim (rounded_ago secs) [
    | seconds n ↦ str_append (platform.show n) "s ago"
    | minutes n ↦ str_append (platform.show n) "m ago"
    | hours n ↦ str_append (platform.show n) "h ago"
    | days n ↦ str_append (platform.show n) "d ago"
  ]

  unfoldable pub ago : ℕ → ℕ → String
  unfolding elapsed join
  ago now ms = elim (elapsed now ms) [
    | in_seconds s ↦ str_append (platform.show s) "s ago"
    | in_minutes m ↦ str_append (platform.show m) "m ago"
    | in_hours h m ↦ join "" (platform.show h ∷ "h " ∷ platform.show m ∷ "m ago" ∷ [])
    | in_days d h ↦ join "" (platform.show d ∷ "d " ∷ platform.show h ∷ "h ago" ∷ [])
  ]

  unfoldable pub last_poll_text : Option ℕ → String
  last_poll_text none = "—"
  last_poll_text (some secs) = str_append (platform.show secs) "s ago"

-- What the parts stand for, in whole seconds.
abbrev pub whole_seconds : Elapsed → ℕ
whole_seconds (in_seconds s) = s
whole_seconds (in_minutes m) = m * 60
whole_seconds (in_hours h m) = h * 3600 + m * 60
whole_seconds (in_days d h) = d * 86400 + h * 3600

-- How much the parts leave out at most.
abbrev pub slack : Elapsed → ℕ
slack (in_seconds s) = 1
slack (in_minutes m) = 60
slack (in_hours h m) = 60
slack (in_days d h) = 3600

-- The parts stand for the seconds between the times but for less than their smallest unit.
pub elapsed_bounds :
    (now ms : ℕ)
    → let e = elapsed now ms in
      let s = (now - ms) / 1000 in (whole_seconds e ≤ s) × (s < whole_seconds e + slack e)
unfolding elapsed
elapsed_bounds now ms = (ground arith, ground arith)
