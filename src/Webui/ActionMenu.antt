-- ===== src/Webui/ActionMenu.antt =====
-- nexus/webui/src/components/ActionMenu.tsx: the menu as steps.
use jaspy.Prelude.{
  ℕ, ◌+◌, ◌≤◌, Bool, false, not, String, List, [], ◌∷◌, ◌++◌, if◌then◌else◌, length, length-append,
  arith, ◌≡◌, str_eq, suc,
}

-- What happens to the menu. A click on an item names its action, and whether it is disabled.
pub data Event (A : Type 0) : Type 0 where
  press_button : Event A
  pointer_down_outside : Event A
  key_down : String → Event A
  click_item : Bool → A → Event A

pub record Menu (A : Type 0) : Type 0 where
  pub is_open : Bool
  pub done : List A

module _ {A : Type 0} where
  abbrev pub initial : Menu A
  initial = record { is_open = false; done = [] }

  -- The listeners on the document are there while the menu is open, and so are its items.
  unfoldable pub step : Event A → Menu A → Menu A
  step press_button m = record m { is_open = not m.is_open }
  step pointer_down_outside m = if m.is_open then record m { is_open = false } else m
  step (key_down key) m =
      if m.is_open then (if str_eq key "Escape" then record m { is_open = false } else m) else m
  step (click_item disabled action) m =
      if m.is_open
      then (if disabled then m else record { is_open = false; done = m.done ++ (action ∷ []) })
      else m

  unfoldable pub run : List (Event A) → Menu A → Menu A
  unfolding step
  run [] m = m
  run (e ∷ events) m = run events (step e m)

  -- How often the button was pressed.
  abbrev pub presses : List (Event A) → ℕ
  presses [] = 0
  presses (press_button ∷ events) = suc (presses events)
  presses (e ∷ events) = presses events

  abbrev ready : Menu A → ℕ
  ready m = if m.is_open then 1 else 0

  step-ready :
      (e : Event A) (m : Menu A)
      → length (step e m).done + ready (step e m) ≤ length m.done + ready m + presses (e ∷ [])
  unfolding step
  step-ready press_button m = ground arith
  step-ready pointer_down_outside m = ground arith
  step-ready (key_down key) m = ground arith
  step-ready (click_item disabled action) m = ground (arith, length-append m.done (action ∷ []))

  presses-cons :
      (e : Event A) (events : List (Event A))
      → presses (e ∷ events) ≡ presses (e ∷ []) + presses events
  presses-cons press_button events = omega arith
  presses-cons e events = omega arith

  run-ready :
      (events : List (Event A)) (m : Menu A)
      → length (run events m).done + ready (run events m) ≤ length m.done + ready m + presses events
  unfolding run
  run-ready [] m = omega arith
  run-ready (e ∷ events) m =
      omega (arith, step-ready e m, run-ready events (step e m), presses-cons e events)

  -- No more actions are done than the button was pressed.
  pub run-done : (events : List (Event A)) → length (run events initial).done ≤ presses events
  run-done events = omega (arith, run-ready events initial)
