-- ===== src/Webui/LiveSocket.antt =====
-- nexus/webui/src/hooks/useLiveSocket.ts: the hook's refs and status, with the sockets and the
-- timers that the browser keeps for it. Sockets and timers are numbered as they are made; a handler
-- keeps the `topic` and the `status` of the effect that made it (`Closure`).
use jaspy.Prelude.{
  ℕ, suc, ◌+◌, ◌*◌, min, Bool, true, false, not, ◌&&◌, ◌||◌, String, Option, none, some, List, [],
  ◌∷◌, ◌++◌, ltb, ◌==◌, if◌then◌else◌,
}
pub mod Handlers
pub mod Steps
mod Kept
pub mod Backoff
pub mod Stale
pub mod Disposed
pub mod Attempting
pub mod Single

abbrev pub backoff_min_ms : ℕ
backoff_min_ms = 500

abbrev pub backoff_max_ms : ℕ
backoff_max_ms = 5000

abbrev pub watchdog_gap_ms : ℕ
watchdog_gap_ms = 40000

pub data LiveStatus : Type 0 where
  live connecting down : LiveStatus

-- `WebSocket.readyState`
pub data ReadyState : Type 0 where
  handshaking open_state closing closed_state : ReadyState

pub record Closure : Type 0 where
  pub topic : String
  pub status : LiveStatus

pub data Timer : Type 0 where
  retry : Closure → Timer
  connect_timeout : ℕ → Timer
  probe_timeout : Timer

-- A frame as `JSON.parse` leaves it.
pub data Frame (D : Type 0) : Type 0 where
  malformed pong : Frame D
  payload : D → Frame D

pub record Hook (D : Type 0) : Type 0 where
  pub status : LiveStatus
  pub socket_ref : Option ℕ
  pub retry_timer : Option ℕ
  pub connect_timer : Option ℕ
  pub probe_timer : Option ℕ
  pub backoff_ms : ℕ
  pub disposed : Bool
  -- the effect that is mounted, for the window's listeners and the watchdog
  pub listening : Option Closure
  -- `checkRef.current`
  pub check_ref : Option Closure
  -- what the browser keeps: the sockets made, the effect and the state of each, and the timers
  pub sockets : ℕ
  pub closure_of : ℕ → Closure
  pub ready : ℕ → ReadyState
  pub timers : ℕ
  pub pending : ℕ → Option Timer
  -- the calls of `onOpen` and of `onMessage`
  pub opens : ℕ
  pub received : List D

-- open, or on the way to it
abbrev pub is_live : ReadyState → Bool
is_live handshaking = true
is_live open_state = true
is_live _ = false

abbrev pub is_open : ReadyState → Bool
is_open open_state = true
is_open _ = false

abbrev pub is_handshaking : ReadyState → Bool
is_handshaking handshaking = true
is_handshaking _ = false

abbrev pub is_closed : ReadyState → Bool
is_closed closed_state = true
is_closed _ = false

abbrev pub is_live_status : LiveStatus → Bool
is_live_status live = true
is_live_status _ = false

abbrev pub is_number : ℕ → Option ℕ → Bool
is_number i none = false
is_number i (some j) = i == j

module _ {D : Type 0} where
  unfoldable pub set_ready : ℕ → ReadyState → Hook D → Hook D
  set_ready i r s = record s { ready = λ j. if j == i then r else s.ready j }

  -- `socket.close()`: the browser's close event comes later.
  unfoldable pub close : ℕ → Hook D → Hook D
  unfolding set_ready
  close i s = if is_closed (s.ready i) then s else set_ready i closing s

  abbrev pub close_ref : Hook D → Hook D
  close_ref s = elim s.socket_ref [ none ↦ s | some i ↦ close i s ]

  unfoldable pub clear_timeout : Option ℕ → Hook D → Hook D
  clear_timeout ref s = record s { pending = λ t. if is_number t ref then none else s.pending t }

  -- The timer's number is `timers` before the call.
  unfoldable pub set_timeout : Timer → Hook D → Hook D
  set_timeout timer s = record s {
    timers = suc s.timers;
    pending = λ t. if t == s.timers then some timer else s.pending t;
  }

  unfoldable pub clear_probe : Hook D → Hook D
  unfolding clear_timeout
  clear_probe s = record (clear_timeout s.probe_timer s) { probe_timer = none }

  -- If the current socket is in one of some states.
  abbrev pub ref_is : (ReadyState → Bool) → Hook D → Bool
  ref_is test s = elim s.socket_ref [ none ↦ false | some i ↦ test (s.ready i) ]

  -- `new WebSocket(...)` with its handshake timeout.
  unfoldable pub new_socket : Closure → Hook D → Hook D
  unfolding set_ready set_timeout
  new_socket c s =
      let i = s.sockets in
      let made = record (set_ready i handshaking s) {
        sockets = suc i;
        closure_of = λ j. if j == i then c else s.closure_of j;
        socket_ref = some i;
      } in
      record (set_timeout (connect_timeout i) made) { connect_timer = some s.timers }
