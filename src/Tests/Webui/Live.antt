-- ===== src/Tests/Webui/Live.antt =====
-- nexus/webui/src/hooks/useLiveSocket.ts: runs of the hook over a change of the topic and a loss.
use jaspy.Prelude.{ℕ, true, false, some, List, [], ◌∷◌, ◌≡◌, refl, arith, ◌≤◌}
use jaspy.Webui.LiveSocket.{
  Hook, payload, live, connecting, open_state, closing, is_live, is_live_status, backoff_min_ms,
  backoff_max_ms, retry,
}
use jaspy.Webui.LiveSocket.Steps.{
  Event, start, cleanup, opened, message, closed, fires, wake, nudge, step, run, initial,
}
use jaspy.Webui.LiveSocket.Backoff.{run-Bounded}
use jaspy.Webui.LiveSocket.Single.{Single, run-Single}
use jaspy.Webui.LiveSocket.Attempting.{Attempting, run-Attempting}
use jaspy.Webui.LiveSocket.Disposed.{cleanup_silent}
use jaspy.Webui.LiveSocket.Stale.{closed_stale}

-- The topic changes while the socket is open; the new one opens before the old one has closed.
abbrev change : List (Event ℕ)
change = start "devices" ∷ opened 0 ∷ start "discovery" ∷ opened 1 ∷ []

abbrev changed : Hook ℕ
changed = run change initial

abbrev after_change : Hook ℕ
after_change = step (closed 0 true) changed

change_shows :
    (changed.status ≡ live)
    × (after_change.status ≡ connecting)
    × (after_change.ready 1 ≡ open_state)
    × (after_change.pending 2 ≡ some (retry (record { topic = "devices"; status = connecting })))
unfolding run
change_shows = (refl, refl, refl, refl)

-- A loss, an attempt that fails, and one that succeeds.
abbrev loss : List (Event ℕ)
loss =
    start "devices"
    ∷ opened 0
    ∷ message 0 (payload 7)
    ∷ closed 0 true
    ∷ fires 1
    ∷ closed 1 true
    ∷ fires 3
    ∷ opened 2
    ∷ message 2 (payload 8)
    ∷ []

loss_recovers :
    let s = run loss initial in
    (s.status ≡ live) × (s.received ≡ 7 ∷ 8 ∷ []) × (s.opens ≡ 2) × (s.backoff_ms ≡ 500)
unfolding run
loss_recovers = (refl, refl, refl, refl)

-- A ping without an answer closes the socket.
zombie :
    (run (start "devices" ∷ opened 0 ∷ wake true true ∷ fires 1 ∷ []) (initial {D = ℕ})).ready 0
    ≡ closing
unfolding run
zombie = refl

run-Bounded_example :
    (backoff_min_ms ≤ (run loss initial).backoff_ms)
    × ((run loss initial).backoff_ms ≤ backoff_max_ms)
run-Bounded_example = run-Bounded loss

run-Single_example : Single (run loss initial)
run-Single_example = run-Single loss

run-Attempting_example : Attempting (run loss initial)
run-Attempting_example = run-Attempting loss

abbrev late : List (Event ℕ)
late = closed 2 true ∷ wake true true ∷ nudge true ∷ fires 3 ∷ []

cleanup_silent_example :
    ((run late (step cleanup (run loss initial))).sockets ≡ (run loss initial).sockets)
    × (is_live ((run late (step cleanup (run loss initial))).ready 2) ≡ false)
unfolding run
cleanup_silent_example = cleanup_silent loss late 2 refl (refl, (refl, (refl, (refl, tt))))

closed_stale_example :
    (after_change.socket_ref ≡ some 1)
    × (after_change.ready 1 ≡ open_state)
    × (is_live_status after_change.status ≡ false)
unfolding run
closed_stale_example = closed_stale changed 0 1 true refl refl (λ e. omega (arith, e)) refl
