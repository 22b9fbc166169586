-- ===== src/Webui/Issues/Detail/Body.antt =====
-- nexus/webui/src/pages/Issues.tsx: the list of facts of an issue, and the cells of a row.
use jaspy.Prelude.{
  ℕ, Bool, not, ◌||◌, String, Option, none, some, List, [], ◌∷◌, ◌++◌, map, length, if◌then◌else◌,
  str_eq, ltb, ◌==◌,
}
use jaspy.Webui.Platform.{Platform}
use jaspy.Webui.Text.{join}
use jaspy.Webui.IssueTypes.{Issue, IssueDetail}
use jaspy.Webui.Issues.{Row, or_else}
use jaspy.Webui.Issues.Order.{keep}
use jaspy.Webui.Times.{ago}
use jaspy.Webui.Client.Calls.{Encoding}
use jaspy.Webui.Issues.Detail.{detail_value, explain_kind}
use jaspy.Webui.Parts.{Part, plain, muted, chip, device_link}

-- A fact: its label and what is shown.
abbrev pub Fact : Type 0
Fact = String × List Part

module _ (encoding : Encoding) where
  -- An issue without a device is one of the network.
  unfoldable pub device_cell : Issue → Part
  device_cell issue =
      let linked = device_link encoding issue.fqdn (or_else issue.hostname issue.fqdn) in
      if str_eq issue.fqdn "" then muted "network" else linked

  unfoldable pub end_links : List Issue → List Part
  end_links [] = []
  end_links (m ∷ members) =
      muted " ↔ " ∷ device_link encoding m.fqdn (or_else m.hostname m.fqdn) ∷ end_links members

  unfoldable pub row_device_cell : Row → List Part
  unfolding device_cell end_links
  row_device_cell row =
      let ends : List Part = elim row.members [
        | [] ↦ []
        | m ∷ members ↦ device_link encoding m.fqdn (or_else m.hostname m.fqdn) ∷ end_links members
      ] in
      if ltb (length row.members) 2 then device_cell row.primary ∷ [] else ends

  fact_if : Bool → Fact → List Fact
  fact_if shown fact = if shown then fact ∷ [] else []

  fact_if_given : String → Option String → List Fact
  fact_if_given label none = []
  fact_if_given label (some s) = fact_if (not (str_eq s "")) (label, plain s ∷ [])

  detail_facts : List IssueDetail → List Fact
  detail_facts rows = map (λ (r : IssueDetail). (r.label, detail_value encoding r.value)) rows

  -- Texts of times and of the chips that open related issues.
  module _ (platform : Platform) (absolute : ℕ → String) (now : ℕ) where
    acked_facts : Issue → List Fact
    unfolding fact_if_given
    acked_facts issue =
        let at : List Fact = elim issue.acked_at [
          | none ↦ []
          | some ms ↦ ("acknowledged", plain (absolute ms) ∷ []) ∷ []
        ] in
        let noted = fact_if_given "note" issue.note in
        if issue.acknowledged then at ++ noted else []

    seen_facts : Issue → List Fact
    seen_facts issue =
        let since =
          join ""
            (absolute issue.first_seen ∷ " (" ∷ ago platform now issue.first_seen ∷ ")" ∷ []) in
        ("first seen", plain since ∷ [])
        ∷ ("last seen", plain (ago platform now issue.last_seen) ∷ [])
        ∷ []

    unfoldable pub issue_facts : Issue → List Issue → List Fact
    unfolding fact_if fact_if_given detail_facts acked_facts seen_facts
    issue_facts issue related =
        let chips = map (λ (r : Issue). chip r.issue_key r.title) related in
        fact_if (not (str_eq issue.fqdn ""))
          ("device", device_link encoding issue.fqdn issue.fqdn ∷ [])
        ++ fact_if_given "affected" issue.subject_label
        ++ detail_facts issue.detail
        ++ fact_if (ltb 0 (length related)) ("related", chips)
        ++ seen_facts issue
        ++ acked_facts issue

    -- The explanation, unless the row shows it above its ends.
    unfoldable pub explanation : Bool → Issue → Option String
    unfolding explain_kind
    explanation show_explain issue =
        let explained = explain_kind platform issue.kind in if show_explain then explained else none

-- The numbers of a row of which only a part is acknowledged.
unfoldable pub partial_ack_hint : Row → Option (ℕ × ℕ)
partial_ack_hint row =
    let all = length row.members in
    let acked = length (keep (λ (m : Issue). m.acknowledged) row.members) in
    if ltb all 2 then none else if acked == 0 || acked == all then none else some (acked, all)
