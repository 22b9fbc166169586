-- ===== src/Webui/Maintenance/Resets.antt =====
-- When the page asks the server for a reset.
use jaspy.Prelude.{
  ℕ, ◌+◌, ◌≤◌, not, ◌&&◌, none, some, List, [], ◌∷◌, ◌++◌, ◌≡◌, if◌then◌else◌, str_eq, arith,
  Bool-cases, Option-cases, inl, inr,
}
use jaspy.Webui.Platform.{Platform}
use jaspy.Webui.Client.Calls.{ApiCall, reset, put_event, set_polling}
use jaspy.Webui.Maintenance.{
  Page, initial, Event, perf_answer, event_answer, type_name, save_event, event_saved,
  press_polling, polling_settled, type_confirm, press_reset, reset_settled, step, run, on_save,
  fill_name, name_or_null,
}

abbrev pub is_reset : ApiCall → ℕ
is_reset reset = 1
is_reset _ = 0

-- The calls that ask for a reset.
abbrev pub resets : List ApiCall → ℕ
resets [] = 0
resets (c ∷ calls) = is_reset c + resets calls

-- Whether an event types "RESET" or is the failure of a reset.
abbrev confirms : Event → ℕ
confirms (type_confirm text) = if str_eq text "RESET" then 1 else 0
confirms (reset_settled none) = 1
confirms _ = 0

abbrev pub confirmations : List Event → ℕ
confirmations [] = 0
confirmations (e ∷ events) = confirms e + confirmations events

-- Whether a press would ask for a reset.
abbrev armed : Page → ℕ
armed s = if str_eq s.confirm_text "RESET" && not s.resetting then 1 else 0

resets-append :
    (calls : List ApiCall) (c : ApiCall) → resets (calls ++ (c ∷ [])) ≡ resets calls + is_reset c
resets-append [] c = omega arith
resets-append (d ∷ calls) c = omega (arith, resets-append calls c)

abbrev Counted : Page → Page → ℕ → Type 0
Counted s s' n = resets s'.calls + armed s' ≤ resets s.calls + armed s + n

module _ (platform : Platform) where
  on_save-Counted : (s : Page) → Counted s (on_save platform s) 0
  unfolding on_save
  on_save-Counted s = elim (Option-cases s.event_name) [
    | inl e ↦ rw (on_save, e) (omega arith)
    | inr (name, e) ↦
        rw (on_save, e)
          (elim (Bool-cases s.saving) [
            | inl h ↦ rw h (omega arith)
            | inr h ↦
                rw (h, resets-append s.calls (put_event (name_or_null platform name))) (omega arith)
          ])
  ]

  fill_name-same :
      (s : Page)
      → ((fill_name s).calls ≡ s.calls)
        × ((fill_name s).confirm_text ≡ s.confirm_text)
        × ((fill_name s).resetting ≡ s.resetting)
  unfolding fill_name
  fill_name-same s = (ground arith, ground arith, ground arith)

  step-Counted : (e : Event) (s : Page) → Counted s (step platform e s) (confirms e)
  unfolding step
  step-Counted (perf_answer p) s = omega arith
  step-Counted (event_answer name) s =
      let (calls, text, pending) = fill_name-same (record s { event_data = some name }) in
      rw (calls, text, pending) (omega arith)
  step-Counted (type_name name) s = omega arith
  step-Counted save_event s = on_save-Counted s
  step-Counted event_saved s = omega arith
  step-Counted (press_polling enabled) s = elim (Bool-cases s.switching) [
    | inl h ↦ rw h (omega arith)
    | inr h ↦ rw (h, resets-append s.calls (set_polling (not enabled))) (omega arith)
  ]
  step-Counted polling_settled s = omega arith
  step-Counted (type_confirm text) s = ground arith
  step-Counted press_reset s = ground (arith, resets-append s.calls reset)
  step-Counted (reset_settled none) s = ground arith
  step-Counted (reset_settled (some deleted)) s = elim (Bool-cases s.resetting) [
    | inl h ↦ rw h (omega arith)
    | inr h ↦ rw h (omega arith)
  ]

  run_from-Counted :
      (events : List Event) (s : Page) → Counted s (run platform events s) (confirmations events)
  unfolding run
  run_from-Counted [] s = omega arith
  run_from-Counted (e ∷ events) s =
      omega (arith, step-Counted e s, run_from-Counted events (step platform e s))

-- From the start of the page, after any events, it has asked the server for a reset at most once
-- for each time that RESET was typed or a reset failed.
pub run-resets :
    (platform : Platform) (events : List Event)
    → resets (run platform events initial).calls ≤ confirmations events
run-resets platform events = omega (arith, run_from-Counted platform events initial)
