-- ===== src/Webui/Issues/Page.antt =====
-- nexus/webui/src/pages/Issues.tsx: the state of the page and what its controls do to it. A `Set`
-- is the list of its texts in the order they came; `Call` is what leaves for the server or for the
-- cache of the queries, in order.
use jaspy.Prelude.{
  ℕ, zero, suc, Bool, true, false, not, ◌&&◌, ◌||◌, String, Option, none, some, List, [], ◌∷◌, ◌++◌,
  map, length, if◌then◌else◌, str_eq, ltb,
}
use jaspy.Webui.IssueTypes.{IssueType}
use jaspy.Webui.Issues.{Row, all, row_keys}
use jaspy.Webui.Issues.Order.{IssueSortKey, severity, device, affected, issue, age}

pub data Call : Type 0 where
  ack_issue : String → Option String → Call
  unack_issue : String → Call
  suppress unsuppress : String → Call
  invalidate_issues invalidate_types : Call

pub record Page : Type 0 where
  pub types_open : Bool
  pub selected_kind : Option String
  pub expanded : List String
  pub acking_key : Option String
  pub ack_note : String
  pub selecting : Bool
  pub selected : List String
  pub sort_key : IssueSortKey
  pub sort_asc : Bool
  pub calls : List Call

-- `set.has(k)`, `set.add(k)` and `set.delete(k)`
unfoldable pub set_has : String → List String → Bool
set_has k [] = false
set_has k (x ∷ xs) = str_eq x k || set_has k xs

unfoldable pub set_add : String → List String → List String
unfolding set_has
set_add k xs = if set_has k xs then xs else xs ++ (k ∷ [])

unfoldable pub set_delete : String → List String → List String
set_delete k [] = []
set_delete k (x ∷ xs) = let rest = set_delete k xs in if str_eq x k then rest else x ∷ rest

unfoldable pub add_all : List String → List String → List String
unfolding set_add
add_all [] s = s
add_all (k ∷ ks) s = add_all ks (set_add k s)

unfoldable pub delete_all : List String → List String → List String
unfolding set_delete
delete_all [] s = s
delete_all (k ∷ ks) s = delete_all ks (set_delete k s)

unfoldable pub toggle_member : String → List String → List String
unfolding set_has set_add set_delete
toggle_member k s = if set_has k s then set_delete k s else set_add k s

unfoldable pub toggle : String → Page → Page
unfolding toggle_member
toggle key p = record p { expanded = toggle_member key p.expanded }

unfoldable pub is_kind : String → Option String → Bool
is_kind k none = false
is_kind k (some j) = str_eq j k

abbrev pub called : List Call → Page → Page
called cs p = record p { calls = p.calls ++ cs }

-- A suppression that succeeds refreshes the types and the issues.
unfoldable pub on_toggle_suppress : Bool → IssueType → Page → Page
unfolding is_kind
on_toggle_suppress succeeds t p =
    let cleared = if is_kind t.kind p.selected_kind then record p { selected_kind = none } else p in
    let after = if succeeds then invalidate_types ∷ invalidate_issues ∷ [] else [] in
    if t.suppressed
    then called (unsuppress t.kind ∷ after) p
    else called (suppress t.kind ∷ after) cleared

unfoldable pub close_ack_form : Page → Page
close_ack_form p = record p { acking_key = none; ack_note = "" }

unfoldable pub open_ack_form : String → Page → Page
open_ack_form key p = record p { acking_key = some key; ack_note = "" }

unfoldable pub exit_select : Page → Page
exit_select p = record p { selecting = false; selected = [] }

-- How many calls of a fan-out are rejected; `succeeds` is the server's answer for a key.
unfoldable pub failed : (String → Bool) → List String → ℕ
failed succeeds [] = 0
failed succeeds (k ∷ ks) = let rest = failed succeeds ks in if succeeds k then rest else suc rest

-- `${failed} of ${keys.length} could not be ...`: the two numbers, if any call failed.
unfoldable pub settle : (String → Bool) → List String → Option (ℕ × ℕ)
unfolding failed
settle succeeds keys = elim (failed succeeds keys) [
  | zero ↦ none
  | suc n ↦ some (suc n, length keys)
]

-- The mutations: the page after them, and the error that they end with.
unfoldable pub ack : (String → Bool) → List String → Option String → Page → Page × Option (ℕ × ℕ)
unfolding settle close_ack_form
ack succeeds keys note p =
    let sent = called (map (λ k. ack_issue k note) keys) p in
    elim (settle succeeds keys) [
      | none ↦ (called (invalidate_issues ∷ []) (close_ack_form sent), none)
      | some e ↦ (sent, some e)
    ]

unfoldable pub unack : (String → Bool) → List String → Page → Page × Option (ℕ × ℕ)
unfolding settle
unack succeeds keys p =
    let sent = called (map unack_issue keys) p in
    elim (settle succeeds keys) [
      | none ↦ (called (invalidate_issues ∷ []) sent, none)
      | some e ↦ (sent, some e)
    ]

unfoldable pub mass_ack : (String → Bool) → List String → Page → Page × Option (ℕ × ℕ)
unfolding settle exit_select
mass_ack succeeds keys p =
    let sent = called (map (λ k. ack_issue k none) keys) p in
    elim (settle succeeds keys) [
      | none ↦ (called (invalidate_issues ∷ []) (exit_select sent), none)
      | some e ↦ (sent, some e)
    ]

unfoldable pub same_key : IssueSortKey → IssueSortKey → Bool
same_key severity severity = true
same_key device device = true
same_key affected affected = true
same_key issue issue = true
same_key age age = true
same_key _ _ = false

unfoldable pub on_sort : IssueSortKey → Page → Page
unfolding same_key
on_sort key p =
    if same_key key p.sort_key
    then record p { sort_asc = not p.sort_asc }
    else record p { sort_key = key; sort_asc = true }

unfoldable pub row_selected : List String → Row → Bool
unfolding row_keys set_has
row_selected selected r = all (λ k. set_has k selected) (row_keys r)

unfoldable pub toggle_row : Row → List String → List String
unfolding row_selected add_all delete_all
toggle_row r s = if row_selected s r then delete_all (row_keys r) s else add_all (row_keys r) s

unfoldable pub toggle_selected_row : Row → Page → Page
unfolding toggle_row
toggle_selected_row r p = record p { selected = toggle_row r p.selected }

abbrev pub keys_of : List Row → List String
keys_of [] = []
keys_of (r ∷ rs) = row_keys r ++ keys_of rs

unfoldable pub all_selected : List Row → List String → Bool
unfolding row_selected
all_selected active s = ltb 0 (length active) && all (row_selected s) active

-- `new Set(keys)` adds them one after another.
unfoldable pub toggle_select_all : List Row → Page → Page
unfolding all_selected add_all row_keys
toggle_select_all active p = record p {
  selected = if all_selected active p.selected then [] else add_all (keys_of active) [];
}
