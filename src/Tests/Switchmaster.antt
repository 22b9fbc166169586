-- ===== src/Tests/Switchmaster.antt =====
-- switchmaster/src/Jaspy.Switchmaster/ClientApp/src at sample values, in a browser that sorts by
-- insertion.
use Prim.Native.String.{compare}
use Prim.Native.Nat.{Ordering}
use mathlib.Core.List.{Perm}
use jaspy.Prelude.{
  ℕ, ◌≢◌, ◌⊎◌, Bool, true, false, String, Option, none, some, List, [], ◌∷◌, ◌≡◌, refl,
}
use jaspy.Switchmaster.Store.{
  Browser, Rearranges, SetsElements, Switch, SwitchStoreState, set, update_item, stationed,
  in_transit_to_storage, in_storage,
}
use jaspy.Switchmaster.Store.Laws.{find, names, update_item-find}
use jaspy.Switchmaster.Panel.{next_state, move_to_next_state}
use jaspy.Switchmaster.Client.{
  Event, dispatch, settle, updated, starting_synchronization, answered, fetch, synchronize, initial,
  run, take_out,
}
use jaspy.Switchmaster.Client.Overlay.{announced, run-covered}
use jaspy.Switchmaster.Client.Names.{reported, run-names}
use jaspy.Tests.Webui.Browser.{insertion_sort, insertion_sort-Perm}

set_at : {A : Type 0} → List A → Option ℕ → A → List A
set_at xs none x = xs
set_at xs (some i) x = set xs i x

is_before : String → String → Bool
is_before s t = elim (compare s t) [ Ordering.lt ↦ true | _ ↦ false ]

unfoldable vue : Browser
unfolding set_at is_before insertion_sort
vue = record {
  sort = λ cmp xs. insertion_sort cmp xs;
  to_lower_case = λ s. s;
  text_lt = is_before;
  vue_set = λ xs i x. set_at xs i x;
}

vue-SetsElements : SetsElements vue
unfolding vue set_at
vue-SetsElements = record { vue_set-index = λ xs i x h. refl; vue_set-none = λ xs x. refl }

vue-Rearranges : Rearranges vue
unfolding vue
vue-Rearranges = record { sort-Perm = λ cmp xs. insertion_sort-Perm cmp xs }

abbrev core : Switch
core = record { fqdn = "core"; deploy_state = stationed; configured = true }

abbrev edge : Switch
edge = record { fqdn = "edge"; deploy_state = in_storage; configured = false }

abbrev moved : Switch
moved = record { fqdn = "core"; deploy_state = in_transit_to_storage; configured = true }

abbrev page_events : List Event
page_events =
    dispatch fetch
    ∷ starting_synchronization
    ∷ settle 0 (answered (edge ∷ core ∷ []))
    ∷ updated moved
    ∷ dispatch synchronize
    ∷ []

-- A request that ends uncovers the page, also while the server synchronizes.
uncovered_while_synchronizing :
    let p =
      run vue (dispatch fetch ∷ starting_synchronization ∷ settle 0 (answered []) ∷ []) initial in
    p.store.processing ≡ false
unfolding run vue
uncovered_while_synchronizing = refl

an_update_of_an_unknown_switch : (run vue (updated core ∷ []) initial).store.items ≡ []
unfolding run vue
an_update_of_an_unknown_switch = refl

update_item-find_example :
    let s : SwitchStoreState = record {
      items = edge ∷ core ∷ [];
      sync_result = none;
      processing = false;
      errors = [];
    } in
    (find "core" (update_item vue moved s).items ≡ some moved)
    × (names (update_item vue moved s).items ≡ "edge" ∷ "core" ∷ [])
unfolding find
update_item-find_example =
    update_item-find vue vue-SetsElements moved
      (record { items = edge ∷ core ∷ []; sync_result = none; processing = false; errors = [] })
      "core"

run-covered_example :
    ((run vue page_events initial).in_flight ≢ []) ⊎ (announced false page_events ≡ true)
unfolding run vue
run-covered_example = run-covered vue page_events refl

run-names_example : Perm (names (run vue page_events initial).store.items) ("edge" ∷ "core" ∷ [])
unfolding reported take_out
run-names_example = run-names vue vue-SetsElements vue-Rearranges page_events

from_each_state : next_state in_storage ≡ some 3
unfolding next_state
from_each_state = refl

an_unknown_state : move_to_next_state "core" 7 ≡ none
unfolding move_to_next_state
an_unknown_state = refl
