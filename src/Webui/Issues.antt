-- ===== src/Webui/Issues.antt =====
-- nexus/webui/src/pages/Issues.tsx: the rows of the issue list. A text tests as false when it is
-- empty. A group has a first member, since it is made with one and a sort keeps it; `group_rows`
-- gives no row to a list without one.
use jaspy.Prelude.{
  ℕ, suc, Bool, true, false, not, ◌&&◌, ◌||◌, String, Option, none, some, List, [], ◌∷◌, ◌++◌, map,
  Dict, get, put, length, if◌then◌else◌, str_eq, ℤ, ltb, min,
}
use jaspy.Webui.IssueTypes.{Issue, Severity, warn, bad}
use jaspy.Webui.Platform.{Platform}
use jaspy.Webui.Text.{join}
use jaspy.Webui.Grouping.{push_to}
pub mod Order
pub mod Compare
pub mod Lookup
pub mod Found
pub mod Detail
pub mod Settled
pub mod Keyed
pub mod Opened
pub mod Conserved
pub mod Page
pub mod Selection

pub record Row : Type 0 where
  pub key : String
  pub members : List Issue
  pub primary : Issue

-- `a || b`, of texts
abbrev pub or_else : String → String → String
or_else a b = if str_eq a "" then b else a

abbrev pub all : {A : Type 0} → (A → Bool) → List A → Bool
all p [] = true
all p (x ∷ xs) = p x && all p xs

abbrev pub any : {A : Type 0} → (A → Bool) → List A → Bool
any p [] = false
any p (x ∷ xs) = p x || any p xs

-- The group of an issue, if it names one.
unfoldable pub group_of : Issue → Option String
group_of issue = elim issue.group_key [
  | none ↦ none
  | some k ↦ if str_eq k "" then none else some k
]

abbrev pub single_row : Issue → Row
single_row issue = record { key = issue.issue_key; members = issue ∷ []; primary = issue }

-- The first loop: the groups, and the rows of the issues without one.
unfoldable pub bucket : List Issue → Dict (List Issue) → List Row → Dict (List Issue) × List Row
unfolding group_of push_to
bucket [] groups rows = (groups, rows)
bucket (issue ∷ list) groups rows = elim (group_of issue) [
  | none ↦ bucket list groups (rows ++ (single_row issue ∷ []))
  | some k ↦ bucket list (push_to k issue groups) rows
]

module _ (platform : Platform) where
  abbrev pub member_cmp : Issue → Issue → ℤ
  member_cmp a b = platform.locale_compare (or_else a.hostname a.fqdn) (or_else b.hostname b.fqdn)

  -- The second loop.
  unfoldable pub group_rows : Dict (List Issue) → List Row
  group_rows [] = []
  group_rows ((key, arr) ∷ groups) =
      let rest = group_rows groups in
      elim (platform.sort member_cmp arr) [
        | [] ↦ rest
        | m ∷ ms ↦ record { key = key; members = m ∷ ms; primary = m } ∷ rest
      ]

  unfoldable pub build_rows : List Issue → List Row
  unfolding bucket group_rows
  build_rows list = let (groups, rows) = bucket list [] [] in rows ++ group_rows groups

is_bad : Issue → Bool
is_bad m = elim m.severity [ warn ↦ false | bad ↦ true ]

unfoldable pub row_severity : Row → Severity
unfolding is_bad
row_severity r = if any is_bad r.members then bad else warn

-- `Math.min` of the members, `none` for the infinity that it is of none.
unfoldable pub row_first_seen : Row → Option ℕ
row_first_seen r = go r.members
  where
    go : List Issue → Option ℕ
    go [] = none
    go (m ∷ ms) = elim (go ms) [ none ↦ some m.first_seen | some t ↦ some (min m.first_seen t) ]

unfoldable pub row_acked : Row → Bool
row_acked r = all (λ m. m.acknowledged) r.members

unfoldable pub row_keys : Row → List String
row_keys r = map (λ m. m.issue_key) r.members

unfoldable pub is_combined : Row → Bool
is_combined r = ltb 1 (length r.members)

-- "f04-sw1 ↔ rkh74-sw1" for a combined row, and the single name otherwise.
unfoldable pub row_device_label : Row → String
unfolding is_combined
row_device_label r =
    if is_combined r
    then join " ↔ " (map (λ m. or_else m.hostname m.fqdn) r.members)
    else or_else (or_else r.primary.hostname r.primary.fqdn) "network"

-- The labels that are neither null nor empty.
present : List (Option String) → List String
present [] = []
present (none ∷ labels) = present labels
present (some s ∷ labels) = let rest = present labels in if str_eq s "" then rest else s ∷ rest

unfoldable pub row_affected_label : Row → Option String
unfolding is_combined present
row_affected_label r =
    let parts = present (map (λ m. m.subject_label) r.members) in
    let label : Option String = elim parts [ [] ↦ none | p ∷ ps ↦ some (join " ↔ " (p ∷ ps)) ] in
    if is_combined r then label else r.primary.subject_label
