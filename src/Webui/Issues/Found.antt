-- ===== src/Webui/Issues/Found.antt =====
-- nexus/webui/src/pages/Issues.tsx: what the tables of the page give for a key.
use jaspy.Prelude.{
  ℕ, suc, ◌+◌, false, String, List, [], ◌∷◌, ◌++◌, length, if◌then◌else◌, str_eq, eq_iff, Dict, get,
  put, get-put, ◌≡◌, refl, arith, str_append, ◌∙◌, ap, sym,
}
use jaspy.Webui.IssueTypes.{Issue, IssueType}
use jaspy.Webui.Text.Split.{has_char, split-append, join-split}
use mathlib.Core.List.{append-nil}
use jaspy.Webui.Grouping.{push_to, or_empty, get-push_to, if-append}
use jaspy.Webui.Issues.Order.{keep}
use jaspy.Webui.Issues.Lookup.{
  subject_of, count_from, count_by_kind, or_zero, group_types, types_by_category,
}

abbrev pub key_of : String → String → String → String
key_of fqdn kind subject =
    str_append fqdn (String.◌∷◌ "|" (str_append kind (String.◌∷◌ "|" subject)))

-- A key of a device, a kind without bars and a subject has that subject.
pub subject_of-key_of :
    (fqdn kind subject : String)
    → has_char "|" fqdn ≡ false
    → has_char "|" kind ≡ false
    → subject_of (key_of fqdn kind subject) ≡ subject
unfolding subject_of
subject_of-key_of fqdn kind subject hf hk =
    rw
      (
        subject_of,
        split-append "|" fqdn (str_append kind (String.◌∷◌ "|" subject)) hf,
        split-append "|" kind subject hk,
      )
      (join-split "|" subject)

kind_count : String → List Issue → ℕ
kind_count kind [] = 0
kind_count kind (i ∷ issues) =
    let rest = kind_count kind issues in if str_eq i.kind kind then suc rest else rest

kind_count-length :
    (kind : String) (issues : List Issue)
    → kind_count kind issues ≡ length (keep (λ i. str_eq i.kind kind) issues)
unfolding kind_count
kind_count-length kind [] = refl
kind_count-length kind (i ∷ issues) = ground (arith, kind_count-length kind issues)

count_from-lem :
    (kind : String) (issues : List Issue) (m : Dict ℕ)
    → or_zero (get kind (count_from issues m)) ≡ kind_count kind issues + or_zero (get kind m)
unfolding count_from kind_count
count_from-lem kind [] m = omega arith
count_from-lem kind (i ∷ issues) m = ground (
  arith,
  eq_iff i.kind kind,
  get-put i.kind kind (suc (or_zero (get i.kind m))) m,
  count_from-lem kind issues (put i.kind (suc (or_zero (get i.kind m))) m),
)

-- The table counts the issues of every kind, a missing entry for none.
pub get-count_by_kind :
    (kind : String) (issues : List Issue)
    → or_zero (get kind (count_by_kind issues)) ≡ length (keep (λ i. str_eq i.kind kind) issues)
unfolding count_by_kind get
get-count_by_kind kind issues =
    ground (arith, count_from-lem kind issues [], kind_count-length kind issues)

group_types-lem :
    (category : String) (types : List IssueType) (groups : Dict (List IssueType))
    → or_empty (get category (group_types types groups))
      ≡ or_empty (get category groups) ++ keep (λ t. str_eq t.category category) types
unfolding group_types
group_types-lem category [] groups = sym (append-nil (or_empty (get category groups)))
group_types-lem category (t ∷ types) groups =
    let here = or_empty (get category groups) in
    let later = keep (λ u. str_eq u.category category) types in
    let rest = group_types-lem category types (push_to t.category t groups) in
    let new = get-push_to t.category category t groups in
    rest ∙ ap (λ x. x ++ later) new ∙ if-append (str_eq t.category category) t here later

-- The table of the catalogue gives for a category the list that a filter of the catalogue by it
-- gives, an empty one where there is no entry.
pub get-types_by_category :
    (category : String) (types : List IssueType)
    → or_empty (get category (types_by_category types))
      ≡ keep (λ t. str_eq t.category category) types
unfolding types_by_category get
get-types_by_category category types = group_types-lem category types []
