-- ===== src/Webui/Issues/Opened.antt =====
-- nexus/webui/src/pages/Issues.tsx: the row that the chip of a related issue opens.
use jaspy.Prelude.{true, String, some, List, [], ◌∷◌, get, str_eq_refl, ◌≡◌, refl, arith, ◌∙◌, All}
use jaspy.Webui.IssueTypes.{Issue}
use jaspy.Webui.Platform.{Platform, Rearranges}
use jaspy.Webui.Issues.{all, build_rows}
use jaspy.Webui.Issues.Lookup.{shown_key, row_key_of, open_issue}
use jaspy.Webui.Issues.Page.{Page, set_has}
use jaspy.Webui.Issues.Selection.{set_has-add}
use jaspy.Webui.Issues.Keyed.{row_key, occurs, row_keys_from-get, build_rows-InRow}

-- The issues of a list fit its tables: the key of an issue fixes the key that is shown for it, and
-- that is the key of its row, as it is where no group key is empty.
pub record IsKeyed (f : String → String) (m : Issue) : Type 0 where
  pub shown : shown_key m ≡ f m.issue_key
  pub grouped : row_key m ≡ shown_key m

shown-All :
    (f : String → String) (list : List Issue)
    → All (IsKeyed f) list
    → All (λ m. shown_key m ≡ f m.issue_key) list
shown-All f [] h = tt
shown-All f (m ∷ list) h = (h.0.shown, shown-All f list h.1)

module _ (f : String → String) (everyone : List Issue) (keyed : All (IsKeyed f) everyone)
    (p : Page) where
  opened :
      (k : String)
      → occurs k everyone ≡ true
      → set_has (f k) (open_issue everyone k p).expanded ≡ true
  unfolding open_issue row_key_of get
  opened k h =
      let found : get k (row_key_of everyone) ≡ some (f k) =
        row_keys_from-get f everyone [] k (shown-All f everyone keyed) ∙ ground (arith, h) in
      rw (found, open_issue)
        (set_has-add (f k) (f k) p.expanded ∙ ground (arith, str_eq_refl (f k)))

  all-opened :
      (list : List Issue)
      → All (IsKeyed f) list
      → ((k : String) → occurs k list ≡ true → occurs k everyone ≡ true)
      → all (λ m. set_has (row_key m) (open_issue everyone m.issue_key p).expanded) list ≡ true
  unfolding occurs
  all-opened [] h sub = refl
  all-opened (m ∷ list) h sub =
      let here = opened m.issue_key (sub m.issue_key (ground (arith, str_eq_refl m.issue_key))) in
      let rest = all-opened list h.1 (λ k e. sub k (ground (arith, e))) in
      ground (arith, here, rest, h.0.shown, h.0.grouped)

-- Where a sort only rearranges and where, for every issue of the list, its key fixes the key that
-- is shown for it and that is the key of its row, for every row and every issue in it the chip of
-- the issue opens the row.
pub open_issue-InRow :
    (platform : Platform) (f : String → String) (list : List Issue) (p : Page)
    → Rearranges platform
    → All (IsKeyed f) list
    → All
        (λ r. all (λ m. set_has r.key (open_issue list m.issue_key p).expanded) r.members ≡ true)
        (build_rows platform list)
open_issue-InRow platform f list p sorting keyed =
    build_rows-InRow (λ k m. set_has k (open_issue list m.issue_key p).expanded) platform list
      sorting (all-opened f list keyed p list keyed (λ k e. e))
