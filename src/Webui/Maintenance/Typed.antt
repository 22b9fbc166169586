-- ===== src/Webui/Maintenance/Typed.antt =====
-- What the user types into the name of the event stays.
use jaspy.Prelude.{String, none, some, List, [], ◌∷◌, ◌≡◌, refl, All, arith, ◌++◌}
use jaspy.Webui.Platform.{Platform}
use jaspy.Webui.Maintenance.{
  Page, Event, perf_answer, event_answer, type_name, save_event, event_saved, press_polling,
  polling_settled, type_confirm, press_reset, reset_settled, step, run,
}

-- An event that is neither typing into the name nor the end of a successful reset.
abbrev pub Leaves : Event → Type 0
Leaves (type_name name) = ⊥
Leaves (reset_settled (some deleted)) = ⊥
Leaves _ = Unit

abbrev Named : String → Page → Type 0
Named name s = s.event_name ≡ some name

module _ (platform : Platform) (name : String) where
  step-Named : (e : Event) (s : Page) → Leaves e → Named name s → Named name (step platform e s)
  unfolding step
  step-Named (perf_answer p) s l h = h
  step-Named (event_answer other) s l h = rw h refl
  step-Named (type_name other) s l h = absurd l
  step-Named save_event s l h = ground arith
  step-Named event_saved s l h = h
  step-Named (press_polling enabled) s l h = ground arith
  step-Named polling_settled s l h = h
  step-Named (type_confirm text) s l h = h
  step-Named press_reset s l h = ground arith
  step-Named (reset_settled none) s l h = h
  step-Named (reset_settled (some deleted)) s l h = absurd l

  run-Named :
      (events : List Event) (s : Page)
      → All Leaves events
      → Named name s
      → Named name (run platform events s)
  unfolding run
  run-Named [] s ls h = h
  run-Named (e ∷ events) s ls h = run-Named events (step platform e s) ls.1 (step-Named e s ls.0 h)

-- The name of the event that was typed last stays, whatever the page held before and whatever
-- happens, up to the next typing or the end of a successful reset.
pub run-typed :
    (platform : Platform) (name : String) (before events : List Event) (s : Page)
    → All Leaves events
    → (run platform (before ++ (type_name name ∷ events)) s).event_name ≡ some name
unfolding run
run-typed platform name [] events s ls = run-Named platform name events _ ls refl
run-typed platform name (e ∷ before) events s ls = run-typed platform name before events _ ls
