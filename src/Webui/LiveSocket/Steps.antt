-- ===== src/Webui/LiveSocket/Steps.antt =====
-- nexus/webui/src/hooks/useLiveSocket.ts: the events that reach the hook, as steps.
use jaspy.Prelude.{ℕ, Bool, false, String, none, some, List, [], ◌∷◌, ltb, if◌then◌else◌}
use jaspy.Webui.LiveSocket.{
  backoff_min_ms, watchdog_gap_ms, connecting, open_state, closed_state, Frame, Hook, is_open,
  is_handshaking, is_closed, set_ready,
}
use jaspy.Webui.LiveSocket.Handlers.{
  on_open, on_message, on_close, fire, start_effect, clean_up, on_wake, on_offline, on_nudge,
}

pub data Event (D : Type 0) : Type 0 where
  -- the effect of a topic, after the cleanup of the one before, and the cleanup at the end
  start : String → Event D
  cleanup : Event D
  -- of a socket; a close tells if `navigator.onLine` is true
  opened : ℕ → Event D
  message : ℕ → Frame D → Event D
  closed : ℕ → Bool → Event D
  fires : ℕ → Event D
  -- of the window: if the page is visible, and if a ping can be sent
  wake : Bool → Bool → Event D
  offline : Event D
  tick : ℕ → Bool → Bool → Event D
  -- `reconnectSignal` is bumped
  nudge : Bool → Event D

module _ {D : Type 0} where
  -- The cleanup of the effect that is mounted, if one is.
  unfoldable pub unmount : Hook D → Hook D
  unfolding clean_up
  unmount s = elim s.listening [ none ↦ s | some _ ↦ clean_up s ]

  -- One event, with the guards of the browser: only a socket in its handshake opens, only an open
  -- one has messages, and one that is closed does not close again.
  unfoldable pub step : Event D → Hook D → Hook D
  unfolding unmount start_effect on_open on_message on_close fire on_wake on_offline on_nudge
      set_ready
  step (start topic) s = start_effect topic (unmount s)
  step cleanup s = unmount s
  step (opened i) s = if is_handshaking (s.ready i) then on_open (set_ready i open_state s) else s
  step (message i frame) s = if is_open (s.ready i) then on_message frame s else s
  step (closed i online) s =
      if is_closed (s.ready i)
      then s
      else on_close (s.closure_of i) online (set_ready i closed_state s)
  step (fires t) s = fire t s
  step (wake visible sends) s = on_wake visible sends s
  step offline s = on_offline s
  step (tick gap visible sends) s = if ltb watchdog_gap_ms gap then on_wake visible sends s else s
  step (nudge sends) s = on_nudge sends s

  unfoldable pub run : List (Event D) → Hook D → Hook D
  unfolding step
  run [] s = s
  run (e ∷ es) s = run es (step e s)

  -- The refs and the status before the first effect; no socket and no timer is made.
  abbrev pub initial : Hook D
  initial = record {
    status = connecting;
    socket_ref = none;
    retry_timer = none;
    connect_timer = none;
    probe_timer = none;
    backoff_ms = backoff_min_ms;
    disposed = false;
    listening = none;
    check_ref = none;
    sockets = 0;
    closure_of = λ i. record { topic = ""; status = connecting };
    ready = λ i. closed_state;
    timers = 0;
    pending = λ t. none;
    opens = 0;
    received = [];
  }
