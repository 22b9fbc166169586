-- ===== src/Webui/LiveSocket/Backoff.antt =====
-- nexus/webui/src/hooks/useLiveSocket.ts: the delay before the next attempt.
use jaspy.Prelude.{ℕ, ◌≤◌, Bool, false, some, List, arith}
use jaspy.Webui.LiveSocket.{
  Closure, Timer, retry, connect_timeout, probe_timeout, Frame, Hook, closed_state, backoff_min_ms,
  backoff_max_ms, close, set_ready, clear_timeout, set_timeout, clear_probe, new_socket,
}
use jaspy.Webui.LiveSocket.Handlers.{
  connect, on_open, on_message, on_close, run_timer, start_effect, clean_up,
}
use jaspy.Webui.LiveSocket.Kept.{Keeps, run-Keeps}
use jaspy.Webui.LiveSocket.Steps.{initial, Event, run}

module _ {D : Type 0} where
  abbrev pub Bounded : Hook D → Type 0
  Bounded s = (backoff_min_ms ≤ s.backoff_ms) × (s.backoff_ms ≤ backoff_max_ms)

  connect-Bounded : (c : Closure) (s : Hook D) → Bounded s → Bounded (connect c s)
  unfolding connect clear_probe clear_timeout new_socket set_timeout set_ready
  connect-Bounded c s h = ground (arith, h)

  close-Bounded : (i : ℕ) (s : Hook D) → Bounded s → Bounded (close i s)
  unfolding close set_ready
  close-Bounded i s h = ground (arith, h)

  run_timer-Bounded : (t : Timer) (s : Hook D) → Bounded s → Bounded (run_timer t s)
  unfolding run_timer
  run_timer-Bounded (retry c) s h = connect-Bounded c s h
  run_timer-Bounded (connect_timeout i) s h = ground (arith, h, close-Bounded i s h)
  run_timer-Bounded probe_timeout s h = grind (arith, close-Bounded, h)

  on_close-Bounded :
      (c : Closure) (online : Bool) (s : Hook D) → Bounded s → Bounded (on_close c online s)
  unfolding on_close clear_probe clear_timeout set_timeout
  on_close-Bounded c online s h = ground (arith, h)

  clean_up-Bounded : (s : Hook D) → Bounded s → Bounded (clean_up s)
  unfolding clean_up clear_probe clear_timeout
  clean_up-Bounded s h = grind (arith, close-Bounded, h)

  on_message-Bounded : (frame : Frame D) (s : Hook D) → Bounded s → Bounded (on_message frame s)
  unfolding on_message clear_probe clear_timeout
  on_message-Bounded frame s h = ground (arith, h)

  Bounded-Keeps : Keeps {D = D} Bounded
  unfolding start_effect on_open clear_timeout set_ready set_timeout
  Bounded-Keeps = record {
    resets = λ s h. ground arith;
    connects = connect-Bounded;
    closes = close-Bounded;
    pings = λ s h. h;
    runs = λ t timer s e h. run_timer-Bounded timer _ h;
    opens = λ i s e h. ground arith;
    receives = on_message-Bounded;
    loses = λ i online s h. on_close-Bounded (s.closure_of i) online (set_ready i closed_state s) h;
    downs = λ s h. h;
    starts = λ topic s h.
        let c : Closure = record { topic = topic; status = s.status } in
        connect-Bounded c
          (record s {
            disposed = false;
            backoff_ms = backoff_min_ms;
            listening = some c;
            check_ref = some c;
          })
          (ground arith);
    cleans = clean_up-Bounded;
  }

  -- After any events, the delay before the next attempt lies between 500 and 5000 milliseconds.
  pub run-Bounded : (es : List (Event D)) → Bounded (run es initial)
  run-Bounded es = run-Keeps Bounded Bounded-Keeps es initial (ground arith)
