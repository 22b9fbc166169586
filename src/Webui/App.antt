-- ===== src/Webui/App.antt =====
-- nexus/webui/src/App.tsx: what the app does at a connection, at a device event and at the state id
-- of an answer. `Refetch` is what is asked of the cache of the queries or of the page, in order.
use jaspy.Prelude.{
  ℕ, Bool, true, false, not, ◌||◌, String, Option, none, some, List, [], ◌∷◌, ◌++◌, if◌then◌else◌,
  str_eq, ◌==◌, ◌≡◌, refl, arith, ap, ◌∙◌,
}
pub mod Header

pub data Refetch : Type 0 where
  summary devices issues everything reload : Refetch

pub record App : Type 0 where
  pub has_connected : Bool
  pub last_state_id : Option ℕ
  pub refetches : List Refetch

pub data AppEvent : Type 0 where
  -- a connection of the live socket, and a frame with its `eventType`
  opened : AppEvent
  device_event : Option String → AppEvent
  -- the effect of the state id of a summary, if it has one; it runs when the id changes
  state_id : Option ℕ → AppEvent

unfoldable pub on_event : AppEvent → App → App
on_event opened a = record a {
  has_connected = true;
  refetches = if a.has_connected then a.refetches ++ (everything ∷ []) else a.refetches;
}
on_event (device_event none) a = a
on_event (device_event (some t)) a =
    if str_eq t ""
    then a
    else record a { refetches = a.refetches ++ (summary ∷ devices ∷ issues ∷ []) }
on_event (state_id none) a = a
on_event (state_id (some n)) a = elim a.last_state_id [
  | none ↦ record a { last_state_id = some n }
  | some m ↦ if m == n then a else record a { refetches = a.refetches ++ (reload ∷ []) }
]

unfoldable pub run : List AppEvent → App → App
unfolding on_event
run [] a = a
run (e ∷ es) a = run es (on_event e a)

abbrev pub fresh : App
fresh = record { has_connected = false; last_state_id = none; refetches = [] }

abbrev pub is_reload : Refetch → Bool
is_reload reload = true
is_reload _ = false

-- The page is told to reload.
abbrev pub reloads : List Refetch → Bool
reloads [] = false
reloads (r ∷ rs) = is_reload r || reloads rs

-- A state id that is not `n`.
abbrev pub differs : ℕ → List AppEvent → Bool
differs n [] = false
differs n (state_id (some m) ∷ es) = not (n == m) || differs n es
differs n (_ ∷ es) = differs n es

-- Some state id differs from the first one.
abbrev pub changes : List AppEvent → Bool
changes [] = false
changes (state_id (some n) ∷ es) = differs n es
changes (_ ∷ es) = changes es

reloads-append : (xs ys : List Refetch) → reloads (xs ++ ys) ≡ (reloads xs || reloads ys)
reloads-append [] ys = refl
reloads-append (x ∷ xs) ys = ground (arith, reloads-append xs ys)

-- An event once a state id is known.
on_event_known :
    (n : ℕ) (e : AppEvent) (a : App)
    → a.last_state_id ≡ some n
    → ((on_event e a).last_state_id ≡ some n)
      × (reloads (on_event e a).refetches ≡ (reloads a.refetches || differs n (e ∷ [])))
unfolding on_event
on_event_known n opened a h = ground (arith, h, reloads-append a.refetches (everything ∷ []))
on_event_known n (device_event none) a h = ground (arith, h)
on_event_known n (device_event (some t)) a h =
    ground (arith, h, reloads-append a.refetches (summary ∷ devices ∷ issues ∷ []))
on_event_known n (state_id none) a h = ground (arith, h)
on_event_known n (state_id (some m)) a h =
    ground (arith, h, reloads-append a.refetches (reload ∷ []))

differs_cons :
    (n : ℕ) (e : AppEvent) (es : List AppEvent)
    → differs n (e ∷ es) ≡ (differs n (e ∷ []) || differs n es)
differs_cons n opened es = refl
differs_cons n (device_event t) es = refl
differs_cons n (state_id none) es = refl
differs_cons n (state_id (some m)) es = ground arith

reloads-run_known :
    (n : ℕ) (es : List AppEvent) (a : App)
    → a.last_state_id ≡ some n
    → reloads (run es a).refetches ≡ (reloads a.refetches || differs n es)
unfolding run
reloads-run_known n [] a h = ground arith
reloads-run_known n (e ∷ es) a h =
    let (known, now) = on_event_known n e a h in
    ground (arith, reloads-run_known n es (on_event e a) known, now, differs_cons n e es)

-- Before one is known: what an event leaves of the state id, and that it asks for no reload.
known_after : AppEvent → Option ℕ
known_after (state_id i) = i
known_after _ = none

on_event_unknown :
    (e : AppEvent) (a : App)
    → a.last_state_id ≡ none
    → ((on_event e a).last_state_id ≡ known_after e)
      × (reloads (on_event e a).refetches ≡ reloads a.refetches)
unfolding on_event known_after
on_event_unknown opened a h = ground (arith, h, reloads-append a.refetches (everything ∷ []))
on_event_unknown (device_event none) a h = ground (arith, h)
on_event_unknown (device_event (some t)) a h =
    ground (arith, h, reloads-append a.refetches (summary ∷ devices ∷ issues ∷ []))
on_event_unknown (state_id none) a h = ground (arith, h)
on_event_unknown (state_id (some m)) a h = ground (arith, h)

reloads-run_unknown :
    (es : List AppEvent) (a : App)
    → a.last_state_id ≡ none
    → reloads (run es a).refetches ≡ (reloads a.refetches || changes es)
unfolding run known_after
reloads-run_unknown [] a h = ground arith
reloads-run_unknown (opened ∷ es) a h =
    let (known, same) = on_event_unknown opened a h in
    reloads-run_unknown es (on_event opened a) known ∙ ap (λ b. b || changes es) same
reloads-run_unknown (device_event t ∷ es) a h =
    let (known, same) = on_event_unknown (device_event t) a h in
    reloads-run_unknown es (on_event (device_event t) a) known ∙ ap (λ b. b || changes es) same
reloads-run_unknown (state_id none ∷ es) a h =
    let (known, same) = on_event_unknown (state_id none) a h in
    reloads-run_unknown es (on_event (state_id none) a) known ∙ ap (λ b. b || changes es) same
reloads-run_unknown (state_id (some m) ∷ es) a h =
    let (known, same) = on_event_unknown (state_id (some m)) a h in
    reloads-run_known m es (on_event (state_id (some m)) a) known ∙ ap (λ b. b || differs m es) same

-- The page is told to reload exactly when a state id arrives that is not the first one.
pub reloads-run : (es : List AppEvent) → reloads (run es fresh).refetches ≡ changes es
reloads-run es = reloads-run_unknown es fresh refl
