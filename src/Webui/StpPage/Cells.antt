-- ===== src/Webui/StpPage/Cells.antt =====
-- nexus/webui/src/pages/STP.tsx: the rows of the tables: the claimed roots, the tree, the blocked links
-- and the hops of the route.
use jaspy.Prelude.{
  ℕ, suc, Bool, false, not, ◌&&◌, String, Option, none, some, List, [], ◌∷◌, ◌++◌, if◌then◌else◌,
  str_eq, str_append, ltb, ◌==◌,
}
use jaspy.Webui.Platform.{Platform}
use jaspy.Webui.Text.{join}
use jaspy.Webui.Types.{InterfaceConnection, StpBridge, StpNode, StpBlockedLink, StpRootClaim}
use jaspy.Webui.Badges.{Badge, badge, badge_ok, badge_warn, badge_muted, stp_state_class}
use jaspy.Webui.Client.Calls.{Encoding}
use jaspy.Webui.Parts.{Part, plain, muted, anchor, badge_part, device_link, if_given}
use jaspy.Webui.Times.{format_ago}
use jaspy.Webui.StpPath.{StpPathHop}
use jaspy.Webui.Issues.Page.{set_has}
use jaspy.Webui.StpPage.{Page, root_unmonitored}

abbrev churn_secs : ℕ
churn_secs = 900

abbrev titled : Badge → String → Part
titled b title = badge_part (record b { title = some title })

abbrev or_dash : Option String → String
or_dash none = "—"
or_dash (some s) = s

-- `claim.expected`, where it is given.
abbrev pub is_expected : StpRootClaim → Bool
is_expected c = elim c.expected [ none ↦ false | some b ↦ b ]

unfoldable pub expected_fqdns : List StpRootClaim → List String
expected_fqdns [] = []
expected_fqdns (c ∷ claims) =
    let rest = expected_fqdns claims in if is_expected c then c.fqdn ∷ rest else rest

-- The button of a claim: there is none while its form is open.
pub data ClaimButton : Type 0 where
  remove_button mark_button : ClaimButton

unfoldable pub claim_button : Page → StpRootClaim → Option ClaimButton
claim_button s c =
    let marking : Bool = elim s.marking_fqdn [ none ↦ false | some fqdn ↦ str_eq fqdn c.fqdn ] in
    if is_expected c then some remove_button else if marking then none else some mark_button

state_part : Option String → Part
state_part none = plain "—"
state_part (some s) =
    let state_badge = badge_part (badge (stp_state_class s) s) in
    if str_eq s "" then plain "—" else state_badge

mismatch_badge : StpNode → Part
unfolding root_unmonitored
mismatch_badge n =
    let mac : String = elim n.reported [
      | none ↦ "?"
      | some r ↦ elim r.root_mac [ none ↦ "?" | some m ↦ m ]
    ] in
    let unmonitored =
      titled (badge badge_muted "root not monitored")
        (join "" ("The real root " ∷ mac ∷ " (lower bridge ID) is not monitored by jaspy" ∷ [])) in
    let mismatched =
      titled (badge badge_warn "root mismatch")
        (join "" ("This switch reports root " ∷ mac ∷ ", which is not the computed root" ∷ [])) in
    if root_unmonitored n then unmonitored else mismatched

module _ (platform : Platform) (encoding : Encoding) where
  unfoldable pub claim_cells : StpRootClaim → List (List Part)
  unfolding join
  claim_cells c =
      let preferred =
        titled (badge badge_ok "STP would elect this")
          "Lowest bridge ID — the root STP would elect if the bridges converged" in
      let expected =
        titled (badge badge_muted "expected") "Acknowledged as a known/expected separate tree" in
      let noted = if_given c.note (λ n. muted n ∷ []) in
      let priority : List Part = elim c.priority [
        | none ↦ []
        | some n ↦ muted (str_append " · prio " (platform.show n)) ∷ []
      ] in
      (device_link encoding c.fqdn c.fqdn ∷ (if c.preferred then preferred ∷ [] else [])
        ++ (if is_expected c then expected ∷ noted else []))
      ∷ (muted (or_dash c.mac) ∷ priority)
      ∷ []

  unfoldable pub node_badges : List String → StpNode → List Part
  unfolding set_has mismatch_badge
  node_badges expected n =
      let known =
        titled (badge badge_muted "expected root")
          "Acknowledged as a known/expected separate tree — not counted toward the multiple-roots alert" in
      let orphan =
        titled (badge badge_warn "orphan")
          "Upstream could not be resolved from the link topology" in
      (if n.depth == 0 && not n.orphan then badge_part (badge badge_ok "root") ∷ [] else [])
      ++ (if set_has n.fqdn expected then known ∷ [] else [])
      ++ (if n.orphan then orphan ∷ [] else [])
      ++ (if n.root_mismatch then mismatch_badge n ∷ [] else [])

  show_or_dash : Option ℕ → String
  show_or_dash none = "—"
  show_or_dash (some n) = platform.show n

  -- A change within the last 15 minutes is marked.
  unfoldable pub change_part : Option StpBridge → Part
  unfolding join format_ago
  change_part none = plain "—"
  change_part (some r) = elim r.time_since_topology_change_secs [
    | none ↦ plain "—"
    | some secs ↦
        let times : String = elim r.topology_changes [
          | none ↦ ""
          | some n ↦ join "" (" (" ∷ platform.show n ∷ "×)" ∷ [])
        ] in
        let shown = str_append (format_ago platform secs) times in
        if ltb secs churn_secs then badge_part (badge badge_warn shown) else muted shown
  ]

  unfoldable pub node_cells : List String → StpNode → List (List Part)
  unfolding node_badges state_part show_or_dash change_part
  node_cells expected n =
      let root_cost : Option ℕ = elim n.reported [ none ↦ none | some r ↦ r.root_cost ] in
      ((if ltb 0 n.depth then muted "└ " ∷ [] else [])
        ++ (device_link encoding n.fqdn n.fqdn ∷ node_badges expected n))
      ∷ (plain (or_dash n.root_port_interface_name)
          ∷ if_given n.parent_interface (λ i. muted (str_append " → " i) ∷ []))
      ∷ (state_part n.root_port_state ∷ [])
      ∷ (plain (show_or_dash n.path_cost) ∷ [])
      ∷ (plain (show_or_dash root_cost) ∷ [])
      ∷ (change_part n.reported ∷ [])
      ∷ []

  connection_cell : Option InterfaceConnection → List Part
  connection_cell none = plain "—" ∷ []
  connection_cell (some c) =
      device_link encoding c.fqdn c.fqdn ∷ plain (str_append ":" c.interface) ∷ []

  unfoldable pub blocked_cells : StpBlockedLink → List (List Part)
  unfolding connection_cell stp_state_class
  blocked_cells l =
      (device_link encoding l.fqdn l.fqdn ∷ [])
      ∷ (plain (or_dash l.interface_name) ∷ [])
      ∷ (plain l.role ∷ [])
      ∷ (badge_part (badge (stp_state_class l.state) l.state) ∷ [])
      ∷ connection_cell l.connected_to
      ∷ []

  -- The browser encodes `undefined` as its name, and shows nothing of it.
  hop_link : Option String → Part
  hop_link none = anchor "/devices/undefined" ""
  hop_link (some fqdn) = device_link encoding fqdn fqdn

  -- The hops are numbered from one.
  unfoldable pub hop_rows : ℕ → List StpPathHop → List (List Part)
  unfolding state_part hop_link
  hop_rows i [] = []
  hop_rows i (h ∷ hops) =
      (muted (platform.show (suc i))
        ∷ hop_link h.from
        ∷ plain (or_dash h.from_interface)
        ∷ hop_link h.to
        ∷ plain (or_dash h.to_interface)
        ∷ state_part h.state
        ∷ [])
      ∷ hop_rows (suc i) hops
