-- ===== src/Webui/DeviceDetail/Health.antt =====
-- nexus/webui/src/pages/DeviceDetail.tsx: the lines that explain what is wrong with an interface, and
-- the texts of counters; components/StatusBadge.tsx: the badges of an interface.
use Prim.Native.Char.{Char, code}
use jaspy.Prelude.{
  ℕ, suc, ◌+◌, ◌*◌, ◌/◌, ◌%◌, Bool, true, false, not, ◌&&◌, ◌||◌, String, Option, none, some, List,
  [], ◌∷◌, ◌++◌, if◌then◌else◌, str_eq, str_append, ltb, leb, ◌==◌, is_some,
}
use jaspy.Webui.Platform.{Platform}
use jaspy.Webui.Text.{join}
use jaspy.Webui.IssueTypes.{Severity, bad, warn}
use jaspy.Webui.DeviceTypes.{InterfaceHealth}
use jaspy.Webui.DeviceDetail.{human_duration}
pub mod Explained
pub mod Digits

-- The characters of a text.
abbrev pub text_length : String → ℕ
text_length String.[] = 0
text_length (String.◌∷◌ c s) = suc (text_length s)

-- `.replace(/\B(?=(\d{3})+(?!\d))/g, ',')` of a text of digits: a comma stands behind a digit where
-- the number of digits that follow is a multiple of three and not zero.
unfoldable pub group_digits : String → String
group_digits String.[] = String.[]
group_digits (String.◌∷◌ c s) =
    let rest = group_digits s in
    let comma = not (str_eq s "") && text_length s % 3 == 0 in
    String.◌∷◌ c (if comma then str_append "," rest else rest)

module _ (platform : Platform) where
  -- Counters are whole: rounding them changes nothing.
  unfoldable pub group_thousands : ℕ → String
  unfolding group_digits
  group_thousands x = group_digits (platform.show x)

  plural : ℕ → String → String
  plural n word = if n == 1 then word else str_append word "s"

  line_if : Bool → List String → List String
  line_if true parts = join "" parts ∷ []
  line_if false parts = []

  stale_line : InterfaceHealth → List String
  stale_line h =
      line_if h.stale ("no recent SNMP data — the device may have stopped responding (stale)" ∷ [])

  flap_line : InterfaceHealth → List String
  flap_line h =
      let ago : String = elim h.last_flap_secs_ago [
        | none ↦ ""
        | some secs ↦ join "" (", last came up " ∷ human_duration platform secs ∷ " ago" ∷ [])
      ] in
      line_if h.flapping (
        "flapping — bounced down/up "
        ∷ platform.show h.flap_count
        ∷ " times in last "
        ∷ human_duration platform h.flap_window_secs
        ∷ ago
        ∷ [])

  discard_line : InterfaceHealth → List String
  discard_line h = line_if (ltb 0 h.discards) (
      group_thousands h.discards
      ∷ " outgoing "
      ∷ plural h.discards "discard"
      ∷ " in last "
      ∷ human_duration platform h.counter_window_secs
      ∷ [])

  error_line : InterfaceHealth → List String
  error_line h = line_if (ltb 0 (h.in_errors + h.out_errors)) (
      group_thousands h.in_errors
      ∷ " input / "
      ∷ group_thousands h.out_errors
      ∷ " output errors in last "
      ∷ human_duration platform h.counter_window_secs
      ∷ [])

  abbrev or_dash : Option ℕ → String
  or_dash none = "—"
  or_dash (some n) = platform.show n

  speed_line : InterfaceHealth → List String
  speed_line h = elim h.last_speed_change [
    | none ↦ []
    | some (from, to) ↦ line_if (ltb 0 h.speed_change_count) (
        "speed renegotiated "
        ∷ platform.show h.speed_change_count
        ∷ "× in last "
        ∷ human_duration platform h.flap_window_secs
        ∷ " ("
        ∷ or_dash from
        ∷ "→"
        ∷ platform.show to
        ∷ " Mb/s)"
        ∷ [])
  ]

  -- Percentages are whole here.
  utilization_line : InterfaceHealth → List String
  utilization_line h = elim h.peak_utilization_pct [
    | none ↦ []
    | some pct ↦ line_if h.high_utilization (
        "peak utilization "
        ∷ platform.show pct
        ∷ "% in last "
        ∷ human_duration platform h.util_window_secs
        ∷ [])
  ]

  unfoldable pub health_lines : InterfaceHealth → List String
  unfolding line_if join stale_line flap_line discard_line error_line speed_line utilization_line
      plural group_thousands human_duration
  health_lines h =
      stale_line h
      ++ (flap_line h ++ (discard_line h ++ (error_line h ++ (speed_line h ++ utilization_line h))))

-- A badge of an interface: high discards, and everything else.
pub data Badge : Type 0 where
  discard_badge : Badge
  health_badge : Severity → Badge

unfoldable pub other_signal : InterfaceHealth → Bool
other_signal health =
    health.flapping
    || (health.stale
        || (health.high_utilization
            || (ltb 0 health.speed_change_count || ltb 0 (health.in_errors + health.out_errors))))

unfoldable pub interface_health_badges : InterfaceHealth → List Badge
unfolding other_signal
interface_health_badges health =
    let discards : List Badge = if health.discards_high then discard_badge ∷ [] else [] in
    let others : List Badge = elim health.severity [
      | none ↦ []
      | some severity ↦ if other_signal health then health_badge severity ∷ [] else []
    ] in
    discards ++ others
