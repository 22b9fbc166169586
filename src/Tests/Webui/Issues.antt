-- ===== src/Tests/Webui/Issues.antt =====
-- nexus/webui/src/pages/Issues.tsx: a list of three issues, two of them the ends of one link.
use mathlib.Core.List.{Perm}
use jaspy.Prelude.{
  ℕ, Bool, true, false, not, String, Option, none, some, List, [], ◌∷◌, ◌++◌, map, length, ◌≡◌,
  refl, str_eq, ◌⊎◌, ◌||◌, if◌then◌else◌, All,
}
use jaspy.Webui.IssueTypes.{Issue, IssueType, Severity, warn, bad}
use jaspy.Webui.Issues.{group_of, Row, all, row_keys, build_rows}
use jaspy.Webui.Issues.Order.{severity, age, keep, has_kind, split_rows}
use jaspy.Webui.Issues.Conserved.{members_of, split_rows-Perm}
use jaspy.Webui.Issues.Page.{Page, ack_issue, toggle_selected_row, row_selected, set_has, mass_ack}
use jaspy.Webui.Issues.Selection.{toggle_selected_row_flips}
use jaspy.Webui.Issues.Settled.{Succeeded, Rejected, mass_ack_settles}
use jaspy.Webui.Issues.Opened.{open_issue-InRow}
use jaspy.Webui.Issues.Lookup.{open_issue, subject_of, types_by_category}
use jaspy.Webui.Issues.Found.{get-types_by_category}
use jaspy.Webui.Grouping.{or_empty}
use jaspy.Prelude.{get, put}
use jaspy.Tests.Webui.Browser.{browser, browser-Rearranges}

abbrev issue : String → String → Severity → Option String → ℕ → Bool → Issue
issue key host level group since acked = record {
  issue_key = key;
  fqdn = host;
  hostname = host;
  kind = "iface-flapping";
  severity = level;
  title = "Flapping";
  description = "";
  subject_label = none;
  detail = [];
  group_key = group;
  first_seen = since;
  last_seen = since;
  acknowledged = acked;
  acked_at = none;
  acked_by = none;
  note = none;
}

abbrev far : Issue
far = issue "sw2|iface-flapping|Gi1" "sw2" warn (some "sw1-sw2") 20 false

abbrev near : Issue
near = issue "sw1|iface-flapping|Gi2" "sw1" bad (some "sw1-sw2") 30 false

abbrev lone : Issue
lone = issue "sw3|iface-flapping|Gi3" "sw3" warn none 10 true

abbrev issues : List Issue
issues = far ∷ lone ∷ near ∷ []

abbrev link_row : Row
link_row = record { key = "sw1-sw2"; members = near ∷ far ∷ []; primary = near }

two_ends :
    split_rows browser issues none severity true
    ≡ (link_row ∷ [], record { key = lone.issue_key; members = lone ∷ []; primary = lone } ∷ [])
unfolding split_rows browser get put
two_ends = refl

vlan_of_key : subject_of "sw1|stp|vlan|7" ≡ "vlan|7"
unfolding subject_of
vlan_of_key = refl

split_rows-Perm_example :
    Perm
      (members_of (split_rows browser issues (some "iface-flapping") age false).0
        ++ members_of (split_rows browser issues (some "iface-flapping") age false).1)
      (keep (has_kind (some "iface-flapping")) issues)
split_rows-Perm_example =
    split_rows-Perm browser browser-Rearranges issues (some "iface-flapping") age false

abbrev page : Page
page = record {
  types_open = false;
  selected_kind = none;
  expanded = [];
  acking_key = none;
  ack_note = "";
  selecting = true;
  selected = near.issue_key ∷ lone.issue_key ∷ [];
  sort_key = severity;
  sort_asc = true;
  calls = [];
}

toggle_selected_row_flips_example :
    (row_selected (toggle_selected_row link_row page).selected link_row
      ≡ not (row_selected page.selected link_row))
    × (set_has lone.issue_key (toggle_selected_row link_row page).selected
        ≡ set_has lone.issue_key page.selected)
unfolding row_keys set_has
toggle_selected_row_flips_example = toggle_selected_row_flips link_row page lone.issue_key refl refl

-- The server refuses the key of the lone issue.
abbrev answers : String → Bool
answers k = not (str_eq k lone.issue_key)

mass_ack_settles_example :
    ((all answers page.selected ≡ true)
      × Succeeded
          (page.calls ++ map (λ k. ack_issue k none) page.selected)
          (mass_ack answers page.selected page))
    ⊎ ((all answers page.selected ≡ false)
        × Rejected
            (page.calls ++ map (λ k. ack_issue k none) page.selected)
            (length page.selected)
            page
            (mass_ack answers page.selected page))
mass_ack_settles_example = mass_ack_settles answers page.selected page

abbrev key_shown : String → String
key_shown k = if str_eq k far.issue_key || str_eq k near.issue_key then "sw1-sw2" else k

open_issue-InRow_example :
    All
      (λ r. all (λ m. set_has r.key (open_issue issues m.issue_key page).expanded) r.members ≡ true)
      (build_rows browser issues)
unfolding group_of
open_issue-InRow_example = open_issue-InRow browser key_shown issues page browser-Rearranges (
  record { shown = refl; grouped = refl },
  (record { shown = refl; grouped = refl }, (record { shown = refl; grouped = refl }, tt)),
)

abbrev flapping : IssueType
flapping = record {
  kind = "iface-flapping";
  category = "interface";
  title = "Flapping";
  description = "";
  suppressed = false;
}

abbrev orphan : IssueType
orphan = record {
  kind = "stp-orphan";
  category = "stp";
  title = "Orphan";
  description = "";
  suppressed = true;
}

get-types_by_category_example :
    or_empty (get "interface" (types_by_category (flapping ∷ orphan ∷ flapping ∷ [])))
    ≡ keep (λ t. str_eq t.category "interface") (flapping ∷ orphan ∷ flapping ∷ [])
get-types_by_category_example =
    get-types_by_category "interface" (flapping ∷ orphan ∷ flapping ∷ [])
