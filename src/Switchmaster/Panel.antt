-- ===== src/Switchmaster/Panel.antt =====
-- switchmaster/src/Jaspy.Switchmaster/ClientApp/src/components/SwitchStatePanel.vue: the states a
-- switch goes through.
use jaspy.Prelude.{
  ℕ, Bool, not, String, Option, none, some, List, [], ◌∷◌, map, if◌then◌else◌, ◌==◌,
}
use jaspy.Switchmaster.Store.{stationed, in_transit_to_storage, in_storage, in_transit_to_station}

-- What `updateItem` is called with: a switch of which only some fields are there.
pub record Payload : Type 0 where
  pub fqdn : String
  pub deploy_state : Option ℕ
  pub configured : Option Bool

unfoldable pub deploy_state_to_string : ℕ → String
deploy_state_to_string s =
    if s == stationed
    then "Stationed"
    else if s == in_transit_to_storage
    then "To Storage"
    else if s == in_storage
    then "In Storage"
    else if s == in_transit_to_station
    then "To Station"
    else "Unknown"

unfoldable pub deploy_state_class : ℕ → String
deploy_state_class s =
    if s == stationed
    then "stationed"
    else if s == in_transit_to_storage
    then "tostorage"
    else if s == in_storage
    then "instorage"
    else if s == in_transit_to_station
    then "tostation"
    else "unknown"

-- The entries of the enumeration whose values are numbers, in the order of their names.
unfoldable pub deploy_states : List (String × ℕ)
unfolding deploy_state_to_string
deploy_states =
    map (λ value. (deploy_state_to_string value, value))
      (stationed ∷ in_transit_to_storage ∷ in_storage ∷ in_transit_to_station ∷ [])

-- The `switch` of `moveToNextState`; `none` where it throws.
unfoldable pub next_state : ℕ → Option ℕ
next_state s =
    if s == stationed
    then some in_transit_to_storage
    else if s == in_transit_to_storage
    then some in_storage
    else if s == in_storage
    then some in_transit_to_station
    else if s == in_transit_to_station
    then some stationed
    else none

-- What is sent, `none` where nothing is.
unfoldable pub move_to_next_state : String → ℕ → Option Payload
unfolding next_state
move_to_next_state fqdn s = elim (next_state s) [
  | none ↦ none
  | some new_state ↦ some (record { fqdn = fqdn; deploy_state = some new_state; configured = none })
]

-- A prop that is not given counts as false.
unfoldable pub toggle_configured : String → Bool → Payload
toggle_configured fqdn is_configured = record {
  fqdn = fqdn;
  deploy_state = none;
  configured = some (not is_configured);
}
