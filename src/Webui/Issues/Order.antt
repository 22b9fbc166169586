-- ===== src/Webui/Issues/Order.antt =====
-- nexus/webui/src/pages/Issues.tsx: the order of the rows.
use jaspy.Prelude.{
  ℕ, suc, ◌-◌, Bool, true, not, ◌||◌, String, Option, none, some, List, [], ◌∷◌, if◌then◌else◌,
  str_eq, ℤ, pos, negsuc, ltb, zero,
}
use jaspy.Webui.IssueTypes.{Issue, warn, bad}
use jaspy.Webui.Platform.{Platform}
use jaspy.Webui.Issues.{
  Row, row_severity, row_first_seen, row_acked, row_device_label, row_affected_label, build_rows,
}

pub data IssueSortKey : Type 0 where
  severity device affected issue age : IssueSortKey

-- A value to sort by: a text, a number, or null.
pub data SortVal : Type 0 where
  null : SortVal
  number : ℕ → SortVal
  label : String → SortVal

abbrev pub negate : ℤ → ℤ
negate (pos zero) = pos 0
negate (pos (suc n)) = negsuc n
negate (negsuc n) = pos (suc n)

-- `a - b`
abbrev pub difference : ℕ → ℕ → ℤ
difference a b = if ltb a b then negsuc (b - a - 1) else pos (a - b)

module _ (platform : Platform) where
  -- `String(v)`, of a value that is not null
  text_of : SortVal → String
  text_of null = "null"
  text_of (number n) = platform.show n
  text_of (label s) = s

  unfoldable pub compare_values : Bool → SortVal → SortVal → ℤ
  unfolding text_of
  compare_values asc null null = pos 0
  compare_values asc null b = pos 1
  compare_values asc a null = negsuc 0
  compare_values asc (number a) (number b) =
      let base = difference a b in if asc then base else negate base
  compare_values asc a b =
      let base = platform.locale_compare (text_of a) (text_of b) in
      if asc then base else negate base

  unfoldable pub make_cmp : {A : Type 0} → (A → SortVal) → Bool → A → A → ℤ
  unfolding compare_values
  make_cmp val asc a b = compare_values asc (val a) (val b)

abbrev label_or_null : Option String → SortVal
label_or_null none = null
label_or_null (some s) = label s

-- A row has a member, and then `age` is a number.
unfoldable pub row_sort_val : IssueSortKey → Row → SortVal
row_sort_val severity r = number (elim (row_severity r) [ bad ↦ 0 | warn ↦ 1 ])
row_sort_val device r = if str_eq r.primary.fqdn "" then null else label (row_device_label r)
row_sort_val affected r = label_or_null (row_affected_label r)
row_sort_val issue r = label r.primary.title
row_sort_val age r = elim (row_first_seen r) [ none ↦ null | some t ↦ number t ]

abbrev pub keep : {A : Type 0} → (A → Bool) → List A → List A
keep p [] = []
keep p (x ∷ xs) = let rest = keep p xs in if p x then x ∷ rest else rest

-- `!selectedKind || i.kind === selectedKind`
unfoldable pub has_kind : Option String → Issue → Bool
has_kind none i = true
has_kind (some kind) i = str_eq kind "" || str_eq i.kind kind

module _ (platform : Platform) where
  -- The rows of the page: the active ones, and the acknowledged.
  unfoldable pub split_rows : List Issue → Option String → IssueSortKey → Bool → List Row × List Row
  unfolding make_cmp row_sort_val has_kind build_rows row_acked
  split_rows issues selected_kind sort_key sort_asc =
      let cmp = make_cmp platform (row_sort_val sort_key) sort_asc in
      let rows = build_rows platform (keep (has_kind selected_kind) issues) in
      (
        platform.sort cmp (keep (λ r. not (row_acked r)) rows),
        platform.sort cmp (keep row_acked rows),
      )
