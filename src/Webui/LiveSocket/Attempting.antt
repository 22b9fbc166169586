-- ===== src/Webui/LiveSocket/Attempting.antt =====
-- nexus/webui/src/hooks/useLiveSocket.ts: what is under way while an effect is mounted.
use jaspy.Prelude.{
  ℕ, Bool, true, false, not, Option, none, some, List, arith, ◌≡◌, refl, inl, inr, is_some, ◌⊎◌,
  ◌<◌,
}
use jaspy.Webui.LiveSocket.{
  Closure, Timer, retry, connect_timeout, probe_timeout, Frame, Hook, ReadyState, open_state,
  closed_state, backoff_min_ms, close, set_ready, ref_is, is_closed, is_handshaking, clear_timeout,
  set_timeout, clear_probe, new_socket,
}
use jaspy.Webui.LiveSocket.Handlers.{
  connect, on_open, on_message, on_close, run_timer, start_effect, clean_up,
}
use jaspy.Webui.LiveSocket.Kept.{if-Keeps, option-Keeps, Keeps, run-Keeps}
use jaspy.Webui.LiveSocket.Steps.{initial, Event, run}

abbrev pub is_retry : Option Timer → Bool
is_retry (some (retry c)) = true
is_retry _ = false

abbrev pub is_unclosed : ReadyState → Bool
is_unclosed r = not (is_closed r)

module _ {D : Type 0} where
  -- The current socket is not closed yet, so that an event of it is to come, or a retry is pending.
  abbrev pub Trying : Hook D → Type 0
  Trying s = (ref_is is_unclosed s ≡ true) ⊎ ((t : ℕ) × (is_retry (s.pending t) ≡ true))

  -- A timer by its number: made before if it is pending or to be cleared, and no retry then.
  abbrev pub SoundAt : Hook D → ℕ → Type 0
  SoundAt s t =
      (is_some (s.pending t) ≡ true → t < s.timers)
      × (s.probe_timer ≡ some t → (t < s.timers) × (is_retry (s.pending t) ≡ false))
      × (s.connect_timer ≡ some t → (t < s.timers) × (is_retry (s.pending t) ≡ false))

  pub record Sound (s : Hook D) : Type 0 where
    pub mounted : (c : Closure) → s.listening ≡ some c → s.disposed ≡ false
    pub at : (t : ℕ) → SoundAt s t

  pub record Attempting (s : Hook D) : Type 0 where
    pub sound : Sound s
    pub trying : (c : Closure) → s.listening ≡ some c → Trying s

  connect-Sound : (c : Closure) (s : Hook D) → Sound s → Sound (connect c s)
  unfolding connect clear_probe clear_timeout new_socket set_timeout set_ready
  connect-Sound c s h = record {
    mounted = λ d e. ground (arith, h.mounted d, e);
    at = λ t. ground (arith, h.at t);
  }

  -- A mounted effect that connects is trying, whatever came before.
  connect-Attempting : (c : Closure) (s : Hook D) → Sound s → Attempting (connect c s)
  unfolding connect clear_probe clear_timeout new_socket set_timeout set_ready
  connect-Attempting c s h = record {
    sound = connect-Sound c s h;
    trying = λ d e. ground (arith, h.mounted d, e);
  }

  close-Sound : (i : ℕ) (s : Hook D) → Sound s → Sound (close i s)
  unfolding close set_ready
  close-Sound i s h = record {
    mounted = λ d e. ground (arith, h.mounted d, e);
    at = λ t. ground (arith, h.at t);
  }

  close-Trying : (i : ℕ) (s : Hook D) → Trying s → Trying (close i s)
  unfolding close set_ready
  close-Trying i s h = ground (arith, h)

  close-Attempting : (i : ℕ) (s : Hook D) → Attempting s → Attempting (close i s)
  unfolding close set_ready
  close-Attempting i s h = record {
    sound = close-Sound i s h.sound;
    trying = λ d e. close-Trying i s (h.trying d (ground (arith, e)));
  }

  -- A timer that has fired is pending no more.
  fired-Sound : (t : ℕ) (s : Hook D) → Sound s → Sound (clear_timeout (some t) s)
  unfolding clear_timeout
  fired-Sound u s h = record {
    mounted = λ d e. ground (arith, h.mounted d, e);
    at = λ t. ground (arith, h.at t);
  }

  fired-Attempting :
      (t : ℕ) (s : Hook D)
      → is_retry (s.pending t) ≡ false
      → Attempting s
      → Attempting (clear_timeout (some t) s)
  unfolding clear_timeout
  fired-Attempting u s other h = record {
    sound = fired-Sound u s h.sound;
    trying = λ d e. ground (arith, h.trying d, e, other);
  }

  no_probe-Attempting : (s : Hook D) → Attempting s → Attempting (record s { probe_timer = none })
  no_probe-Attempting s a = record {
    sound = let h = a.sound in record { mounted = h.mounted; at = λ t. ground (arith, h.at t) };
    trying = a.trying;
  }

  run_timer-Attempting :
      (t : ℕ) (timer : Timer) (s : Hook D)
      → s.pending t ≡ some timer
      → Attempting s
      → Attempting (run_timer timer (clear_timeout (some t) s))
  unfolding run_timer
  run_timer-Attempting u (retry c) s e h =
      connect-Attempting c (clear_timeout (some u) s) (fired-Sound u s h.sound)
  run_timer-Attempting u (connect_timeout i) s e h =
      let after = fired-Attempting u s (rw e refl) h in
      if-Keeps Attempting (is_handshaking (s.ready i))
        (λ b. close-Attempting i (clear_timeout (some u) s) after) (λ b. after)
  run_timer-Attempting u probe_timeout s e h =
      let after = fired-Attempting u s (rw e refl) h in
      let reset = no_probe-Attempting (clear_timeout (some u) s) after in
      option-Keeps Attempting s.socket_ref reset (λ i ei.
        close-Attempting i (record (clear_timeout (some u) s) { probe_timer = none }) reset)

  on_close-Attempting :
      (i : ℕ) (online : Bool) (s : Hook D)
      → Attempting s
      → Attempting (on_close (s.closure_of i) online (set_ready i closed_state s))
  unfolding on_close clear_probe clear_timeout set_timeout set_ready
  on_close-Attempting i online s a = record {
    sound =
        let h = a.sound in
        record {
          mounted = λ d e. ground (arith, h.mounted d, e);
          at = λ t. ground (arith, h.at t);
        };
    trying = λ d e. inr (s.timers, ground (arith, a.sound.mounted d, e));
  }

  clean_up-Attempting : (s : Hook D) → Attempting s → Attempting (clean_up s)
  unfolding clean_up clear_probe clear_timeout close set_ready
  clean_up-Attempting s a = record {
    sound =
        let h = a.sound in
        record {
          mounted = λ d e. ground (arith, h.mounted d, e);
          at = λ t. ground (arith, h.at t);
        };
    trying = λ d e. ground (arith, e);
  }

  opened-Attempting :
      (i : ℕ) (s : Hook D)
      → is_handshaking (s.ready i) ≡ true
      → Attempting s
      → Attempting (on_open (set_ready i open_state s))
  unfolding on_open clear_timeout set_ready
  opened-Attempting i s handshake a = record {
    sound =
        let h = a.sound in
        record {
          mounted = λ d e. ground (arith, h.mounted d, e);
          at = λ t. ground (arith, h.at t);
        };
    trying = λ d e. elim (a.trying d e) [
      | inl ref ↦ inl (ground (arith, ref))
      | inr (t, r) ↦ inr (t, ground (arith, r, a.sound.at t))
    ];
  }

  on_message-Attempting :
      (frame : Frame D) (s : Hook D) → Attempting s → Attempting (on_message frame s)
  unfolding on_message clear_probe clear_timeout
  on_message-Attempting frame s a = record {
    sound =
        let h = a.sound in
        record {
          mounted = λ d e. ground (arith, h.mounted d, e);
          at = λ t. ground (arith, h.at t);
        };
    trying = λ d e. elim (a.trying d (ground (arith, e))) [
      | inl ref ↦ inl (ground (arith, ref))
      | inr (t, r) ↦ inr (t, ground (arith, r, a.sound.at t))
    ];
  }

  pings-Attempting :
      (s : Hook D)
      → Attempting s
      → Attempting (record (set_timeout probe_timeout s) { probe_timer = some s.timers })
  unfolding set_timeout
  pings-Attempting s a = record {
    sound = let h = a.sound in record { mounted = h.mounted; at = λ t. ground (arith, h.at t) };
    trying = λ d e. elim (a.trying d e) [
      | inl ref ↦ inl ref
      | inr (t, r) ↦ inr (t, ground (arith, r, a.sound.at t))
    ];
  }

  Attempting-Keeps : Keeps {D = D} Attempting
  unfolding start_effect
  Attempting-Keeps = record {
    resets = λ s h. record {
      sound = record { mounted = h.sound.mounted; at = h.sound.at };
      trying = h.trying;
    };
    connects = λ c s h. connect-Attempting c s h.sound;
    closes = close-Attempting;
    pings = pings-Attempting;
    runs = run_timer-Attempting;
    opens = opened-Attempting;
    receives = on_message-Attempting;
    loses = on_close-Attempting;
    downs = λ s h. record {
      sound = record { mounted = h.sound.mounted; at = h.sound.at };
      trying = h.trying;
    };
    starts = λ topic s h.
        let c : Closure = record { topic = topic; status = s.status } in
        connect-Attempting c
          (record s {
            disposed = false;
            backoff_ms = backoff_min_ms;
            listening = some c;
            check_ref = some c;
          })
          (record { mounted = λ d e. refl; at = h.sound.at });
    cleans = clean_up-Attempting;
  }

  -- After any events, while an effect is mounted, its current socket is not closed yet or a retry
  -- is pending; the hook is not disposed then, every pending timer has been made, and the numbers
  -- kept for the connect and the probe timer are of timers that have been made and are no retries.
  pub run-Attempting : (es : List (Event D)) → Attempting (run es initial)
  run-Attempting es = run-Keeps Attempting Attempting-Keeps es initial (record {
    sound = record { mounted = λ d e. ground (arith, e); at = λ t. ground arith };
    trying = λ d e. ground (arith, e);
  })
