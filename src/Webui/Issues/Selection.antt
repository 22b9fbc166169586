-- ===== src/Webui/Issues/Selection.antt =====
-- nexus/webui/src/pages/Issues.tsx: the selection of rows.
use jaspy.Prelude.{
  Bool, true, false, not, ◌&&◌, ◌||◌, String, List, [], ◌∷◌, ◌++◌, map, length, str_eq, eq_iff, ltb,
  ◌≡◌, refl, arith, str_eq_refl, All,
}
use jaspy.Webui.IssueTypes.{Issue}
use jaspy.Webui.Issues.{Row, all, row_keys}
use jaspy.Webui.Issues.Page.{
  Page, set_has, set_add, set_delete, add_all, delete_all, toggle_member, toggle, row_selected,
  toggle_row, toggle_selected_row, keys_of, all_selected, toggle_select_all,
}

set_has-append :
    (k : String) (xs ys : List String) → set_has k (xs ++ ys) ≡ (set_has k xs || set_has k ys)
unfolding set_has
set_has-append k [] ys = refl
set_has-append k (x ∷ xs) ys = ground (arith, set_has-append k xs ys)

set_has_one : (j k : String) → set_has j (k ∷ []) ≡ str_eq k j
unfolding set_has
set_has_one j k = ground arith

pub set_has-add :
    (j k : String) (s : List String) → set_has j (set_add k s) ≡ (str_eq k j || set_has j s)
unfolding set_add
set_has-add j k s = ground (arith, set_has-append j s (k ∷ []), set_has_one j k, eq_iff k j)

set_has-delete :
    (j k : String) (s : List String)
    → set_has j (set_delete k s) ≡ (not (str_eq k j) && set_has j s)
unfolding set_has set_delete
set_has-delete j k [] = ground arith
set_has-delete j k (x ∷ s) =
    ground (arith, set_has-delete j k s, eq_iff x k, eq_iff x j, eq_iff k j)

set_has-add_all :
    (j : String) (ks s : List String) → set_has j (add_all ks s) ≡ (set_has j ks || set_has j s)
unfolding set_has add_all
set_has-add_all j [] s = refl
set_has-add_all j (k ∷ ks) s = ground (arith, set_has-add_all j ks (set_add k s), set_has-add j k s)

set_has-delete_all :
    (j : String) (ks s : List String)
    → set_has j (delete_all ks s) ≡ (not (set_has j ks) && set_has j s)
unfolding set_has delete_all
set_has-delete_all j [] s = refl
set_has-delete_all j (k ∷ ks) s =
    ground (arith, set_has-delete_all j ks (set_delete k s), set_has-delete j k s)

-- A second toggle of a key brings every membership back.
pub toggle-toggle :
    (j k : String) (p : Page) → set_has j (toggle k (toggle k p)).expanded ≡ set_has j p.expanded
unfolding toggle toggle_member
toggle-toggle j k p =
    let s = p.expanded in
    let t = toggle_member k s in
    ground (
      arith,
      eq_iff k j,
      set_has-add j k s,
      set_has-add j k t,
      set_has-add k k s,
      set_has-delete j k s,
      set_has-delete j k t,
      set_has-delete k k s,
      str_eq_refl k,
    )

all-lem :
    (p : String → Bool) (ks : List String)
    → ((k : String) → set_has k ks ≡ true → p k ≡ true)
    → all p ks ≡ true
unfolding set_has
all-lem p [] h = refl
all-lem p (k ∷ ks) h =
    ground
      (arith, h k (ground (arith, str_eq_refl k)), all-lem p ks (λ j e. h j (ground (arith, e))))

row_selected-add_all : (r : Row) (s : List String) → row_selected (add_all (row_keys r) s) r ≡ true
unfolding row_selected
row_selected-add_all r s =
    all-lem (λ k. set_has k (add_all (row_keys r) s)) (row_keys r)
      (λ k e. ground (arith, set_has-add_all k (row_keys r) s, e))

none-lem :
    (p : String → Bool) (ks : List String)
    → ltb 0 (length ks) ≡ true
    → ((k : String) → set_has k ks ≡ true → p k ≡ false)
    → all p ks ≡ false
unfolding set_has
none-lem p [] n h = ground (arith, n)
none-lem p (k ∷ ks) n h = ground (arith, h k (ground (arith, str_eq_refl k)))

keys_lem :
    (ms : List Issue) → ltb 0 (length ms) ≡ true → ltb 0 (length (map (λ m. m.issue_key) ms)) ≡ true
keys_lem [] h = h
keys_lem (m ∷ ms) h = ground arith

row_selected-delete_all :
    (r : Row) (s : List String)
    → ltb 0 (length r.members) ≡ true
    → row_selected (delete_all (row_keys r) s) r ≡ false
unfolding row_selected row_keys
row_selected-delete_all r s h =
    none-lem (λ k. set_has k (delete_all (row_keys r) s)) (row_keys r) (keys_lem r.members h)
      (λ k e. ground (arith, set_has-delete_all k (row_keys r) s, e))

-- For a row that has a member and a key that is none of the row's, a toggle selects the row if it
-- was not selected and else leaves it unselected, and the key is selected as before.
pub toggle_selected_row_flips :
    (r : Row) (p : Page) (j : String)
    → ltb 0 (length r.members) ≡ true
    → set_has j (row_keys r) ≡ false
    → let q = toggle_selected_row r p in
      (row_selected q.selected r ≡ not (row_selected p.selected r))
      × (set_has j q.selected ≡ set_has j p.selected)
unfolding toggle_selected_row toggle_row
toggle_selected_row_flips r p j member other = ground (
  arith,
  other,
  row_selected-add_all r p.selected,
  row_selected-delete_all r p.selected member,
  set_has-add_all j (row_keys r) p.selected,
  set_has-delete_all j (row_keys r) p.selected,
)

rows_selected :
    (s : List String) (rs : List Row)
    → ((k : String) → set_has k (keys_of rs) ≡ true → set_has k s ≡ true)
    → all (row_selected s) rs ≡ true
unfolding row_selected
rows_selected s [] h = refl
rows_selected s (r ∷ rs) h = ground (
  arith,
  all-lem (λ k. set_has k s) (row_keys r)
      (λ k e. h k (ground (arith, set_has-append k (row_keys r) (keys_of rs), e))),
  rows_selected s rs (λ k e. h k (ground (arith, set_has-append k (row_keys r) (keys_of rs), e))),
)

none_selected : (r : Row) → ltb 0 (length r.members) ≡ true → row_selected [] r ≡ false
unfolding row_selected row_keys
none_selected r h = none-lem (λ k. set_has k []) (row_keys r) (keys_lem r.members h) (λ k e. refl)

-- For active rows that all have members, the control of all rows selects them all, or takes every
-- row out when all are selected.
pub toggle_select_all_flips :
    (active : List Row) (p : Page)
    → ltb 0 (length active) ≡ true
    → All (λ r. ltb 0 (length r.members) ≡ true) active
    → all_selected active (toggle_select_all active p).selected
      ≡ not (all_selected active p.selected)
unfolding toggle_select_all all_selected
toggle_select_all_flips [] p some_row members = ground (arith, some_row)
toggle_select_all_flips (r ∷ rs) p some_row members =
    let keys = keys_of (r ∷ rs) in
    ground (
      arith,
      none_selected r members.0,
      rows_selected (add_all keys []) (r ∷ rs)
          (λ k e. ground (arith, set_has-add_all k keys [], e)),
    )
