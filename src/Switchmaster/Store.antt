-- ===== src/Switchmaster/Store.antt =====
-- switchmaster/src/Jaspy.Switchmaster/ClientApp/src/store: the state of the page and the mutations.
use mathlib.Core.List.{Perm}
use jaspy.Prelude.{
  ℕ, zero, suc, ◌<◌, Bool, true, false, String, Option, none, some, List, [], ◌∷◌, ◌++◌, ℤ, pos,
  negsuc, ◌≡◌, if◌then◌else◌, str_eq, length,
}
pub mod Laws

-- What the page takes from the browser and from Vue: the stable `Array.prototype.sort`, `toLowerCase`
-- and `<` of texts, and the elements of an array after `Vue.set`, where no index stands for -1.
pub record Browser : Type 1 where
  pub sort : {A : Type 0} → (A → A → ℤ) → List A → List A
  pub to_lower_case : String → String
  pub text_lt : String → String → Bool
  pub vue_set : {A : Type 0} → List A → Option ℕ → A → List A

-- A write to an index of a list.
abbrev pub set : {A : Type 0} → List A → ℕ → A → List A
set [] i v = []
set (x ∷ xs) zero v = v ∷ xs
set (x ∷ xs) (suc i) v = x ∷ set xs i v

-- A sort has the elements that it was given, each as often.
pub record Rearranges (browser : Browser) : Type 1 where
  pub sort-Perm : {A : Type 0} (cmp : A → A → ℤ) (xs : List A) → Perm (browser.sort cmp xs) xs

-- `Vue.set` replaces the element at an index of the array. -1 is no index: it becomes a property of
-- the array beside the elements.
pub record SetsElements (browser : Browser) : Type 1 where
  pub vue_set-index :
      {A : Type 0} (xs : List A) (i : ℕ) (x : A)
      → i < length xs
      → browser.vue_set xs (some i) x ≡ set xs i x
  pub vue_set-none : {A : Type 0} (xs : List A) (x : A) → browser.vue_set xs none x ≡ xs

-- The numbers of `DeployState`. A switch from the server may hold any.
abbrev pub stationed : ℕ
stationed = 0

abbrev pub in_transit_to_storage : ℕ
in_transit_to_storage = 1

abbrev pub in_storage : ℕ
in_storage = 2

abbrev pub in_transit_to_station : ℕ
in_transit_to_station = 3

pub record Switch : Type 0 where
  pub fqdn : String
  pub deploy_state : ℕ
  pub configured : Bool

pub record SynchronizationResult : Type 0 where
  pub added : ℕ
  pub existing : ℕ
  pub new_switches : List Switch

pub record SwitchStoreState : Type 0 where
  pub items : List Switch
  pub sync_result : Option SynchronizationResult
  pub processing : Bool
  pub errors : List String

abbrev pub state : SwitchStoreState
state = record { items = []; sync_result = none; processing = false; errors = [] }

unfoldable pub set_processing : Bool → SwitchStoreState → SwitchStoreState
set_processing processing s = record s { processing = processing }

unfoldable pub add_error : String → SwitchStoreState → SwitchStoreState
add_error error s = record s { errors = s.errors ++ (error ∷ []) }

-- `findIndex` at the name of a switch.
unfoldable pub index_of : String → List Switch → Option ℕ
index_of name [] = none
index_of name (entry ∷ items) =
    let later : Option ℕ = elim (index_of name items) [ none ↦ none | some i ↦ some (suc i) ] in
    if str_eq entry.fqdn name then some zero else later

module _ (browser : Browser) where
  unfoldable pub by_fqdn : Switch → Switch → ℤ
  by_fqdn a b =
      let fqdn_a = browser.to_lower_case a.fqdn in
      let fqdn_b = browser.to_lower_case b.fqdn in
      if browser.text_lt fqdn_a fqdn_b
      then negsuc 0
      else if browser.text_lt fqdn_b fqdn_a
      then pos 1
      else pos 0

  unfoldable pub set_sync_result : SynchronizationResult → SwitchStoreState → SwitchStoreState
  set_sync_result result s = record s {
    sync_result = some result;
    items = browser.sort by_fqdn (s.items ++ result.new_switches);
  }

  unfoldable pub set_items : List Switch → SwitchStoreState → SwitchStoreState
  set_items items s = record s { items = browser.sort by_fqdn items }

  unfoldable pub update_item : Switch → SwitchStoreState → SwitchStoreState
  unfolding index_of
  update_item item s = record s {
    items = browser.vue_set s.items (index_of item.fqdn s.items) item;
  }
