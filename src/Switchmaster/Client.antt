-- ===== src/Switchmaster/Client.antt =====
-- switchmaster/src/Jaspy.Switchmaster/ClientApp/src/App.vue and store/actions.ts: the messages of the
-- hub and the requests, as events. A request is two steps, its start and its end, and any events may
-- come between them.
use jaspy.Prelude.{
  ℕ, zero, suc, Bool, true, false, String, Option, none, some, List, [], ◌∷◌, ◌++◌, str_append,
}
use jaspy.Switchmaster.Store.{
  Browser, Switch, SynchronizationResult, SwitchStoreState, state, set_processing, add_error,
  set_sync_result, set_items, update_item,
}
use jaspy.Switchmaster.Panel.{Payload}
pub mod Overlay
pub mod Names

pub data Action : Type 0 where
  fetch : Action
  update : Payload → Action
  synchronize : Action

-- The path and the method of the request, and its body.
unfoldable pub request_of : Action → String × String × Option Payload
request_of fetch = ("api/switch", "GET", none)
request_of (update payload) = (str_append "api/switch/" payload.fqdn, "PATCH", some payload)
request_of synchronize = ("api/switch/synchronize", "SYNCHRONIZE", none)

-- How the awaited part of an action ends. The answer to `fetch` is a list of switches; the answers to
-- the others are not used. The status of a response is not looked at.
pub data Outcome : Type 0 where
  answered : List Switch → Outcome
  rejected : String → Outcome

pub data Event : Type 0 where
  dispatch : Action → Event
  settle : ℕ → Outcome → Event
  updated : Switch → Event
  starting_synchronization : Event
  synchronized : Option SynchronizationResult → Event

-- The page: its store and the actions in flight, in the order in which they began.
pub record Page : Type 0 where
  pub store : SwitchStoreState
  pub in_flight : List Action

abbrev pub initial : Page
initial = record { store = state; in_flight = [] }

-- The action at an index, and the others.
unfoldable pub take_out : ℕ → List Action → Option (Action × List Action)
take_out i [] = none
take_out zero (a ∷ actions) = some (a, actions)
take_out (suc i) (a ∷ actions) = elim (take_out i actions) [
  | none ↦ none
  | some (b, rest) ↦ some (b, a ∷ rest)
]

module _ (browser : Browser) where
  -- The rest of an action behind its `await`: the `try` or the `catch`, and the `finally`.
  unfoldable pub finish : Action → Outcome → SwitchStoreState → SwitchStoreState
  unfolding set_processing add_error set_items
  finish a (rejected error) s = set_processing false (add_error error s)
  finish fetch (answered items) s = set_processing false (set_items browser items s)
  finish _ (answered items) s = set_processing false s

  -- The handler of 'Synchronize'.
  unfoldable pub on_synchronize : Option SynchronizationResult → SwitchStoreState → SwitchStoreState
  unfolding set_processing set_sync_result
  on_synchronize none s = set_processing false s
  on_synchronize (some result) s = set_processing false (set_sync_result browser result s)

  unfoldable pub step : Event → Page → Page
  unfolding finish on_synchronize take_out update_item
  step (dispatch a) p = record p {
    store = set_processing true p.store;
    in_flight = p.in_flight ++ (a ∷ []);
  }
  step (settle i outcome) p = elim (take_out i p.in_flight) [
    | none ↦ p
    | some (a, rest) ↦ record { store = finish a outcome p.store; in_flight = rest }
  ]
  step (updated item) p = record p { store = update_item browser item p.store }
  step starting_synchronization p = record p { store = set_processing true p.store }
  step (synchronized result) p = record p { store = on_synchronize result p.store }

  unfoldable pub run : List Event → Page → Page
  unfolding step
  run [] p = p
  run (e ∷ events) p = run events (step e p)
