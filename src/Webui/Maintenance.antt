-- ===== src/Webui/Maintenance.antt =====
-- nexus/webui/src/pages/Maintenance.tsx: the live rates, the name of the event, the polling switch and
-- the reset, as steps of the page's state.
use jaspy.Prelude.{
  ℕ, ◌+◌, ◌-◌, ◌*◌, Bool, true, false, not, ◌&&◌, ◌||◌, String, Option, none, some, List, [], ◌∷◌,
  ◌++◌, if◌then◌else◌, str_eq, ltb,
}
use jaspy.Webui.Platform.{Platform}
use jaspy.Webui.Text.{join}
use jaspy.Webui.Client.Calls.{ApiCall, put_event, set_polling, reset}
pub mod Status
pub mod Typed
pub mod Resets

-- The counters of an answer, and when it came, in milliseconds.
pub record Sample : Type 0 where
  pub polls : ℕ
  pub queries : ℕ
  pub t : ℕ

-- A rate is a difference over a time: what is shown for a second is 1000 times the difference, divided
-- by the milliseconds. A difference that would be negative counts as none.
pub record Rates : Type 0 where
  pub polls : ℕ
  pub queries : ℕ
  pub msecs : ℕ

pub record Page : Type 0 where
  pub prev_perf : Option Sample
  pub rates : Option Rates
  -- The last answer to `event`: the name, which may be null.
  pub event_data : Option (Option String)
  pub event_name : Option String
  pub saving : Bool
  pub switching : Bool
  pub confirm_text : String
  pub resetting : Bool
  pub reset_result : Option String
  -- The calls that were made, the last one at the end.
  pub calls : List ApiCall

abbrev pub initial : Page
initial = record {
  prev_perf = none;
  rates = none;
  event_data = none;
  event_name = none;
  saving = false;
  switching = false;
  confirm_text = "";
  resetting = false;
  reset_result = none;
  calls = [];
}

pub data Event : Type 0 where
  perf_answer : Sample → Event
  event_answer : Option String → Event
  type_name : String → Event
  save_event : Event
  event_saved : Event
  -- The switch at what the answer to `system` says.
  press_polling : Bool → Event
  polling_settled : Event
  type_confirm : String → Event
  press_reset : Event
  -- The devices that were deleted, or an error.
  reset_settled : Option ℕ → Event

-- The difference to the sample before, where more than half a second lies between.
unfoldable pub rates_between : Sample → Sample → Option Rates → Option Rates
rates_between prev p old =
    if ltb 500 (p.t - prev.t)
    then some (record {
      polls = p.polls - prev.polls;
      queries = p.queries - prev.queries;
      msecs = p.t - prev.t;
    })
    else old

unfoldable pub on_perf : Sample → Page → Page
unfolding rates_between
on_perf p s =
    let rates : Option Rates = elim s.prev_perf [
      | none ↦ s.rates
      | some prev ↦ rates_between prev p s.rates
    ] in
    record s { prev_perf = some p; rates = rates }

-- The effect that takes the name from the server, once.
unfoldable pub fill_name : Page → Page
fill_name s = elim s.event_name [
  | some name ↦ s
  | none ↦ elim s.event_data [
    | none ↦ s
    | some d ↦ record s { event_name = some (elim d [ none ↦ "" | some name ↦ name ]) }
  ]
]

-- `name.trim() || null`
abbrev name_or_null : Platform → String → Option String
name_or_null platform name =
    let trimmed = platform.trim name in if str_eq trimmed "" then none else some trimmed

module _ (platform : Platform) where
  -- A form whose button is disabled is not submitted.
  unfoldable pub on_save : Page → Page
  on_save s = elim s.event_name [
    | none ↦ s
    | some name ↦ if s.saving then s else record s {
      saving = true;
      calls = s.calls ++ (put_event (name_or_null platform name) ∷ []);
    }
  ]

  unfoldable pub on_press_reset : Page → Page
  on_press_reset s =
      if str_eq s.confirm_text "RESET" && not s.resetting
      then record s { resetting = true; calls = s.calls ++ (reset ∷ []) }
      else s

  -- The answer to a request that was not made changes nothing.
  unfoldable pub on_reset_settled : Option ℕ → Page → Page
  unfolding join
  on_reset_settled none s = record s { resetting = false }
  on_reset_settled (some deleted) s =
      let text = join "" ("Reset complete: " ∷ platform.show deleted ∷ " devices deleted." ∷ []) in
      if s.resetting
      then record s {
        resetting = false;
        reset_result = some text;
        confirm_text = "";
        event_name = some "";
      }
      else s

  unfoldable pub step : Event → Page → Page
  unfolding on_perf fill_name on_save on_press_reset on_reset_settled
  step (perf_answer p) s = on_perf p s
  step (event_answer name) s = fill_name (record s { event_data = some name })
  step (type_name name) s = record s { event_name = some name }
  step save_event s = on_save s
  step event_saved s = record s { saving = false }
  step (press_polling enabled) s =
      if s.switching
      then s
      else record s { switching = true; calls = s.calls ++ (set_polling (not enabled) ∷ []) }
  step polling_settled s = record s { switching = false }
  step (type_confirm text) s = record s { confirm_text = text }
  step press_reset s = on_press_reset s
  step (reset_settled result) s = on_reset_settled result s

  unfoldable pub run : List Event → Page → Page
  unfolding step
  run [] s = s
  run (e ∷ events) s = run events (step e s)
