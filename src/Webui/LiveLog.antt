-- ===== src/Webui/LiveLog.antt =====
-- nexus/webui/src/components/LiveLog.tsx: the lines of a live log.
use jaspy.Prelude.{ℕ, suc, zero, ◌-◌, ◌≤◌, String, Option, none, some, List, [], ◌∷◌, ◌++◌, length}
pub mod Tail

abbrev pub max_lines : ℕ
max_lines = 1000

pub record LiveLogLine : Type 0 where
  pub ts : ℕ
  pub line : String

abbrev pub drop : {A : Type 0} → ℕ → List A → List A
drop zero xs = xs
drop (suc n) [] = []
drop (suc n) (x ∷ xs) = drop n xs

-- `list.slice(-n)`, of a positive `n`
unfoldable pub slice_last : {A : Type 0} → ℕ → List A → List A
slice_last n xs = drop (length xs - n) xs

-- What the socket tells: a connection, and a frame, `none` if its `line` is no text.
pub data LogEvent : Type 0 where
  open_log : LogEvent
  frame : Option LiveLogLine → LogEvent

unfoldable pub on_event : LogEvent → List LiveLogLine → List LiveLogLine
unfolding slice_last
on_event open_log lines = []
on_event (frame none) lines = lines
on_event (frame (some entry)) lines = slice_last max_lines (lines ++ (entry ∷ []))

unfoldable pub log_after : List LogEvent → List LiveLogLine → List LiveLogLine
unfolding on_event
log_after [] lines = lines
log_after (e ∷ es) lines = log_after es (on_event e lines)
