-- ===== src/Webui/LiveSocket/Disposed.antt =====
-- nexus/webui/src/hooks/useLiveSocket.ts: the events after the cleanup.
use jaspy.Prelude.{ℕ, Bool, true, false, none, some, List, [], ◌∷◌, arith, ◌≡◌, is_some, All}
use jaspy.Webui.LiveSocket.{
  Timer, retry, connect_timeout, probe_timeout, Hook, close, set_ready, is_live, clear_timeout,
  set_timeout, clear_probe,
}
use jaspy.Webui.LiveSocket.Handlers.{
  connect, check_connection, on_open, on_message, on_close, run_timer, fire, clean_up, on_wake,
  on_offline, on_nudge,
}
use jaspy.Webui.LiveSocket.Kept.{option-Keeps}
use jaspy.Webui.LiveSocket.Steps.{initial, unmount, Event, start, cleanup, fires, step, run}
use jaspy.Webui.LiveSocket.Single.{step-Single, run-Single, run_on-Single}

abbrev pub is_start : {D : Type 0} → Event D → Bool
is_start (start topic) = true
is_start _ = false

module _ {D : Type 0} where
  -- No effect is mounted, no socket is current, and `n` sockets have been made.
  pub record Disposed (n : ℕ) (s : Hook D) : Type 0 where
    pub disposed : s.disposed ≡ true
    pub unheard : s.listening ≡ none
    pub no_ref : s.socket_ref ≡ none
    pub sockets : s.sockets ≡ n

  run_timer-Disposed :
      (n : ℕ) (timer : Timer) (s : Hook D) → Disposed n s → Disposed n (run_timer timer s)
  unfolding run_timer connect close set_ready
  run_timer-Disposed n (retry c) s h = ground (arith, h)
  run_timer-Disposed n (connect_timeout i) s h = ground (arith, h)
  run_timer-Disposed n probe_timeout s h = ground (arith, h)

  step-Disposed :
      (n : ℕ) (e : Event D) (s : Hook D) → is_start e ≡ false → Disposed n s → Disposed n (step e s)
  unfolding step unmount on_open on_message on_close fire on_wake on_offline on_nudge
      check_connection set_ready set_timeout clear_probe clear_timeout
  step-Disposed n (start topic) s other h = ground (arith, other)
  step-Disposed n (fires t) s other h =
      option-Keeps (Disposed n) (s.pending t) h
        (λ timer e. run_timer-Disposed n timer (clear_timeout (some t) s) (ground (arith, h)))
  step-Disposed n e s other h = ground (arith, h)

  run-Disposed :
      (n : ℕ) (es : List (Event D)) (s : Hook D)
      → All (λ e. is_start e ≡ false) es
      → Disposed n s
      → Disposed n (run es s)
  unfolding run
  run-Disposed n [] s others h = h
  run-Disposed n (e ∷ es) s others h =
      run-Disposed n es (step e s) others.1 (step-Disposed n e s others.0 h)

  cleanup-Disposed : (s : Hook D) → is_some s.listening ≡ true → Disposed s.sockets (step cleanup s)
  unfolding step unmount clean_up clear_probe clear_timeout close set_ready
  cleanup-Disposed s h = ground (arith, h)

  -- Where an effect is mounted after some events and, after its cleanup, any events come but the
  -- start of an effect, no socket has been made since the cleanup and none is open or in its
  -- handshake.
  pub cleanup_silent :
      (before after : List (Event D)) (j : ℕ)
      → let s = run before initial in
        is_some s.listening ≡ true
        → All (λ e. is_start e ≡ false) after
        → let t = run after (step cleanup s) in
          (t.sockets ≡ s.sockets) × (is_live (t.ready j) ≡ false)
  cleanup_silent before after j mounted others =
      let s = run before initial in
      let t = run after (step cleanup s) in
      let d = run-Disposed s.sockets after (step cleanup s) others (cleanup-Disposed s mounted) in
      let one = run_on-Single after (step cleanup s) (step-Single cleanup s (run-Single before)) in
      (d.sockets, ground (arith, d.no_ref, one.single j))
