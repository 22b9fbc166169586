-- ===== src/Webui/Issues/Lookup.antt =====
-- nexus/webui/src/pages/Issues.tsx: the tables that the page computes from the issues and the types.
use jaspy.Prelude.{
  ℕ, suc, Bool, not, ◌&&◌, ◌||◌, String, Option, none, some, List, [], ◌∷◌, length, if◌then◌else◌,
  str_eq, ltb, Dict, get, put,
}
use jaspy.Webui.IssueTypes.{Issue, IssueType}
use jaspy.Webui.Text.{split, join}
use jaspy.Webui.Grouping.{push_to}
use jaspy.Webui.Issues.Order.{keep}
use jaspy.Webui.Issues.Page.{Page, set_add}

-- `parts.slice(2).join('|')`, of three parts or more
unfoldable pub subject_of : String → String
unfolding split join
subject_of issue_key = elim (split "|" issue_key) [
  | [] ↦ ""
  | _ ∷ rest ↦ elim rest [ [] ↦ "" | _ ∷ parts ↦ join "|" parts ]
]

unfoldable pub is_sibling : Issue → Issue → Bool
unfolding subject_of
is_sibling issue o =
    not (str_eq o.issue_key issue.issue_key)
    && (str_eq o.fqdn issue.fqdn && str_eq (subject_of o.issue_key) (subject_of issue.issue_key))

related_from : List Issue → List Issue → Dict (List Issue) → Dict (List Issue)
unfolding is_sibling
related_from everyone [] table = table
related_from everyone (issue ∷ issues) table =
    let siblings = keep (is_sibling issue) everyone in
    let skipped = related_from everyone issues table in
    let added = related_from everyone issues (put issue.issue_key siblings table) in
    if str_eq issue.fqdn "" || not (ltb 0 (length siblings)) then skipped else added

unfoldable pub related_by_key : List Issue → Dict (List Issue)
unfolding related_from
related_by_key everyone = related_from everyone everyone []

-- `m.get(i.kind) ?? 0`
abbrev pub or_zero : Option ℕ → ℕ
or_zero none = 0
or_zero (some n) = n

unfoldable pub count_from : List Issue → Dict ℕ → Dict ℕ
count_from [] m = m
count_from (i ∷ issues) m = count_from issues (put i.kind (suc (or_zero (get i.kind m))) m)

unfoldable pub count_by_kind : List Issue → Dict ℕ
unfolding count_from
count_by_kind issues = count_from issues []

-- A category is made empty before its first type is pushed.
unfoldable pub group_types : List IssueType → Dict (List IssueType) → Dict (List IssueType)
unfolding push_to
group_types [] groups = groups
group_types (t ∷ types) groups = group_types types (push_to t.category t groups)

unfoldable pub types_by_category : List IssueType → Dict (List IssueType)
unfolding group_types
types_by_category types = group_types types []

unfoldable pub suppressed_count : List IssueType → ℕ
suppressed_count types = length (keep (λ t. t.suppressed) types)

-- `i.groupKey ?? i.issueKey`
abbrev pub shown_key : Issue → String
shown_key i = elim i.group_key [ none ↦ i.issue_key | some k ↦ k ]

unfoldable pub row_keys_from : List Issue → Dict String → Dict String
row_keys_from [] m = m
row_keys_from (i ∷ issues) m = row_keys_from issues (put i.issue_key (shown_key i) m)

unfoldable pub row_key_of : List Issue → Dict String
unfolding row_keys_from
row_key_of issues = row_keys_from issues []

-- The row of an issue is opened, and scrolled to.
unfoldable pub open_issue : List Issue → String → Page → Page
unfolding row_key_of set_add
open_issue issues issue_key p =
    let key : String = elim (get issue_key (row_key_of issues)) [ none ↦ issue_key | some k ↦ k ] in
    record p { expanded = set_add key p.expanded }
