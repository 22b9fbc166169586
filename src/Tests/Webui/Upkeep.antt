-- ===== src/Tests/Webui/Upkeep.antt =====
-- nexus/webui/src/pages/Maintenance.tsx at sample values.
use jaspy.Prelude.{some, List, [], ◌∷◌, ◌≡◌, ◌≤◌, refl}
use jaspy.Webui.Maintenance.{
  initial, Event, perf_answer, event_answer, type_name, save_event, press_reset, type_confirm,
  reset_settled, run,
}
use jaspy.Webui.Maintenance.Typed.{run-typed}
use jaspy.Webui.Maintenance.Resets.{resets, run-resets}
use jaspy.Tests.Webui.Browser.{browser}

abbrev reset_events : List Event
reset_events =
    press_reset
    ∷ type_confirm "RESET"
    ∷ press_reset
    ∷ press_reset
    ∷ reset_settled (some 4)
    ∷ press_reset
    ∷ []

-- One of the four presses asks for a reset.
one_reset : resets (run browser reset_events initial).calls ≡ 1
unfolding run browser
one_reset = refl

run-resets_example : resets (run browser reset_events initial).calls ≤ 1
run-resets_example = run-resets browser reset_events

the_typed_name :
    (run browser
      (event_answer (some "old") ∷ (type_name "new" ∷ event_answer (some "old") ∷ save_event ∷ []))
      initial).event_name
    ≡ some "new"
the_typed_name =
    run-typed browser "new" (event_answer (some "old") ∷ [])
      (event_answer (some "old") ∷ save_event ∷ []) initial (tt, (tt, tt))

rates_of_two_answers :
    (run browser
      (perf_answer (record { polls = 10; queries = 100; t = 1000 })
        ∷ perf_answer (record { polls = 40; queries = 90; t = 4000 })
        ∷ [])
      initial).rates
    ≡ some (record { polls = 30; queries = 0; msecs = 3000 })
unfolding run
rates_of_two_answers = refl
