-- ===== src/Webui/LiveSocket/Kept.antt =====
-- nexus/webui/src/hooks/useLiveSocket.ts: what every event keeps, from what the handlers keep.
use jaspy.Prelude.{
  ℕ, Bool, true, false, Option, none, some, List, [], ◌∷◌, if◌then◌else◌, ◌≡◌, refl, ltb, String,
}
use jaspy.Webui.LiveSocket.{
  Closure, Timer, probe_timeout, Frame, Hook, ReadyState, open_state, handshaking, closing,
  closed_state, down, backoff_min_ms, watchdog_gap_ms, close, set_ready, close_ref, is_handshaking,
  is_open, is_closed, clear_timeout, set_timeout,
}
use jaspy.Webui.LiveSocket.Handlers.{
  connect, probe, check_connection, on_open, on_message, on_close, run_timer, fire, start_effect,
  clean_up, on_wake, on_offline, on_nudge,
}
use jaspy.Webui.LiveSocket.Steps.{
  Event, start, cleanup, opened, message, closed, fires, wake, offline, tick, nudge, unmount, step,
  run,
}

pub record Keeps {D : Type 0} (P : Hook D → Type 0) : Type 0 where
  pub resets : (s : Hook D) → P s → P (record s { backoff_ms = backoff_min_ms })
  pub connects : (c : Closure) (s : Hook D) → P s → P (connect c s)
  pub closes : (i : ℕ) (s : Hook D) → P s → P (close i s)
  pub pings :
      (s : Hook D) → P s → P (record (set_timeout probe_timeout s) { probe_timer = some s.timers })
  pub runs :
      (t : ℕ) (timer : Timer) (s : Hook D)
      → s.pending t ≡ some timer
      → P s
      → P (run_timer timer (clear_timeout (some t) s))
  pub opens :
      (i : ℕ) (s : Hook D)
      → is_handshaking (s.ready i) ≡ true
      → P s
      → P (on_open (set_ready i open_state s))
  pub receives : (frame : Frame D) (s : Hook D) → P s → P (on_message frame s)
  pub loses :
      (i : ℕ) (online : Bool) (s : Hook D)
      → P s
      → P (on_close (s.closure_of i) online (set_ready i closed_state s))
  pub downs : (s : Hook D) → P s → P (record s { status = down })
  pub starts : (topic : String) (s : Hook D) → P s → P (start_effect topic s)
  pub cleans : (s : Hook D) → P s → P (clean_up s)

-- The two ways of a test, and of a value that may be missing.
pub if-Keeps :
    {A : Type 0} (P : A → Type 0) (b : Bool) {x y : A}
    → (b ≡ true → P x)
    → (b ≡ false → P y)
    → P (if b then x else y)
if-Keeps P true hx hy = hx refl
if-Keeps P false hx hy = hy refl

pub option-Keeps :
    {A B : Type 0} (P : A → Type 0) (o : Option B) {x : A} {f : B → A}
    → P x
    → ((b : B) → o ≡ some b → P (f b))
    → P (elim o [ none ↦ x | some b ↦ f b ])
option-Keeps P none hx hf = hx
option-Keeps P (some b) hx hf = hf b refl

module _ {D : Type 0} (P : Hook D → Type 0) (k : Keeps P) where
  close_ref-Keeps : (s : Hook D) → P s → P (close_ref s)
  close_ref-Keeps s h = option-Keeps P s.socket_ref h (λ i e. k.closes i s h)

  probe-Keeps : (sends : Bool) (i : ℕ) (s : Hook D) → P s → P (probe sends i s)
  unfolding probe
  probe-Keeps true i s h = k.pings s h
  probe-Keeps false i s h = k.closes i (record s { backoff_ms = backoff_min_ms }) (k.resets s h)

  check_connection-Keeps :
      (c : Closure) (sends : Bool) (s : Hook D) → P s → P (check_connection c sends s)
  unfolding check_connection
  check_connection-Keeps c sends s h =
      if-Keeps P s.disposed (λ e. h)
        (λ e. option-Keeps P s.socket_ref anew (λ i ei. at i (s.ready i)))
    where
      anew : P (connect c (record s { backoff_ms = backoff_min_ms }))
      anew = k.connects c (record s { backoff_ms = backoff_min_ms }) (k.resets s h)

      at :
          (i : ℕ) (r : ReadyState)
          → P (elim r [
            | open_state ↦ elim s.probe_timer [ none ↦ probe sends i s | some _ ↦ s ]
            | handshaking ↦ s
            | _ ↦ connect c (record s { backoff_ms = backoff_min_ms })
          ])
      at i handshaking = h
      at i open_state = option-Keeps P s.probe_timer (probe-Keeps sends i s h) (λ t e. h)
      at i closing = anew
      at i closed_state = anew

  on_wake-Keeps : (visible sends : Bool) (s : Hook D) → P s → P (on_wake visible sends s)
  unfolding on_wake
  on_wake-Keeps visible sends s h =
      option-Keeps P s.listening h
        (λ c e. if-Keeps P visible (λ v. check_connection-Keeps c sends s h) (λ v. h))

  unmount-Keeps : (s : Hook D) → P s → P (unmount s)
  unfolding unmount
  unmount-Keeps s h = option-Keeps P s.listening h (λ c e. k.cleans s h)

  -- What the handlers keep, every event keeps.
  pub step-Keeps : (e : Event D) (s : Hook D) → P s → P (step e s)
  unfolding step fire on_offline on_nudge
  step-Keeps (start topic) s h = k.starts topic (unmount s) (unmount-Keeps s h)
  step-Keeps cleanup s h = unmount-Keeps s h
  step-Keeps (opened i) s h =
      if-Keeps P (is_handshaking (s.ready i)) (λ e. k.opens i s e h) (λ e. h)
  step-Keeps (message i frame) s h =
      if-Keeps P (is_open (s.ready i)) (λ e. k.receives frame s h) (λ e. h)
  step-Keeps (closed i online) s h =
      if-Keeps P (is_closed (s.ready i)) (λ e. h) (λ e. k.loses i online s h)
  step-Keeps (fires t) s h = option-Keeps P (s.pending t) h (λ timer e. k.runs t timer s e h)
  step-Keeps (wake visible sends) s h = on_wake-Keeps visible sends s h
  step-Keeps offline s h =
      option-Keeps P s.listening h
        (λ c e. close_ref-Keeps (record s { status = down }) (k.downs s h))
  step-Keeps (tick gap visible sends) s h =
      if-Keeps P (ltb watchdog_gap_ms gap) (λ e. on_wake-Keeps visible sends s h) (λ e. h)
  step-Keeps (nudge sends) s h = option-Keeps P s.check_ref (k.resets s h) (λ c e.
      check_connection-Keeps c sends (record s { backoff_ms = backoff_min_ms }) (k.resets s h))

  pub run-Keeps : (es : List (Event D)) (s : Hook D) → P s → P (run es s)
  unfolding run
  run-Keeps [] s h = h
  run-Keeps (e ∷ es) s h = run-Keeps es (step e s) (step-Keeps e s h)
