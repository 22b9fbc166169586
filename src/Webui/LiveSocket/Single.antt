-- ===== src/Webui/LiveSocket/Single.antt =====
-- nexus/webui/src/hooks/useLiveSocket.ts: the sockets that are open or on the way to it.
use jaspy.Prelude.{ℕ, Bool, true, false, none, some, List, arith, ◌≡◌}
use jaspy.Webui.LiveSocket.{
  Closure, Timer, retry, connect_timeout, probe_timeout, Hook, closed_state, backoff_min_ms, close,
  set_ready, close_ref, is_live, clear_timeout, set_timeout, clear_probe, new_socket,
}
use jaspy.Webui.LiveSocket.Handlers.{
  connect, on_open, on_message, on_close, run_timer, start_effect, clean_up,
}
use jaspy.Webui.LiveSocket.Kept.{Keeps, step-Keeps, run-Keeps}
use jaspy.Webui.LiveSocket.Steps.{initial, Event, step, run}

module _ {D : Type 0} where
  -- Every other socket than the current one is closed, or closing.
  pub record Single (s : Hook D) : Type 0 where
    pub single : (j : ℕ) → is_live (s.ready j) ≡ true → s.socket_ref ≡ some j

  connect-Single : (c : Closure) (s : Hook D) → Single s → Single (connect c s)
  unfolding connect clear_probe clear_timeout new_socket set_timeout set_ready
  connect-Single c s h = record { single = λ j e. ground (arith, h.single j, e) }

  close-Single : (i : ℕ) (s : Hook D) → Single s → Single (close i s)
  unfolding close set_ready
  close-Single i s h = record { single = λ j e. ground (arith, h.single j, e) }

  close_ref-Single : (s : Hook D) → Single s → Single (close_ref s)
  close_ref-Single s h = record { single = λ j e. grind (arith, close-Single, h, e) }

  run_timer-Single : (t : Timer) (s : Hook D) → Single s → Single (run_timer t s)
  unfolding run_timer
  run_timer-Single (retry c) s h = connect-Single c s h
  run_timer-Single (connect_timeout i) s h = ground (arith, h, close-Single i s h)
  run_timer-Single probe_timeout s h =
      close_ref-Single (record s { probe_timer = none }) (record { single = h.single })

  on_close-Single :
      (i : ℕ) (online : Bool) (s : Hook D)
      → Single s
      → Single (on_close (s.closure_of i) online (set_ready i closed_state s))
  unfolding on_close clear_probe clear_timeout set_timeout set_ready
  on_close-Single i online s h = record { single = λ j e. ground (arith, h.single j, e) }

  clean_up-Single : (s : Hook D) → Single s → Single (clean_up s)
  unfolding clean_up clear_probe clear_timeout close set_ready
  clean_up-Single s h = record { single = λ j e. ground (arith, h.single j, e) }

  Single-Keeps : Keeps {D = D} Single
  unfolding start_effect on_open on_message clear_probe clear_timeout set_ready set_timeout
  Single-Keeps = record {
    resets = λ s h. record { single = h.single };
    connects = connect-Single;
    closes = close-Single;
    pings = λ s h. record { single = h.single };
    runs = λ t timer s e h. run_timer-Single timer _ (record { single = h.single });
    opens = λ i s e h. record { single = λ j ej. ground (arith, h.single j, h.single i, e, ej) };
    receives = λ frame s h. record { single = λ j e. ground (arith, h.single j, e) };
    loses = on_close-Single;
    downs = λ s h. record { single = h.single };
    starts = λ topic s h.
        let c : Closure = record { topic = topic; status = s.status } in
        connect-Single c
          (record s {
            disposed = false;
            backoff_ms = backoff_min_ms;
            listening = some c;
            check_ref = some c;
          })
          (record { single = h.single });
    cleans = clean_up-Single;
  }

  pub step-Single : (e : Event D) (s : Hook D) → Single s → Single (step e s)
  step-Single = step-Keeps Single Single-Keeps

  pub run_on-Single : (es : List (Event D)) (s : Hook D) → Single s → Single (run es s)
  run_on-Single = run-Keeps Single Single-Keeps

  -- After any events, a socket that is open or in its handshake is the current one.
  pub run-Single : (es : List (Event D)) → Single (run es initial)
  run-Single es = run_on-Single es initial (record { single = λ j e. ground (arith, e) })
