-- ===== src/Webui/Issues/Detail.antt =====
-- nexus/webui/src/pages/Issues.tsx: the expanded body of an issue and the cells of a row, as the parts
-- that are shown one after the other.
use jaspy.Prelude.{
  ℕ, Bool, true, false, not, ◌&&◌, ◌||◌, String, Option, none, some, List, [], ◌∷◌, ◌++◌, map,
  length, if◌then◌else◌, str_eq, str_append, ltb, ◌==◌,
}
use jaspy.Webui.Platform.{Platform}
use jaspy.Webui.Text.{join}
use jaspy.Webui.Types.{InterfaceConnection, CdpNeighbor}
use jaspy.Webui.IssueTypes.{
  Issue, IssueDetail, IssueDetailValue, Tone, text, mac, device, interface, verdict, link, stp_root,
  member,
}
use jaspy.Webui.Issues.{Row, or_else}
use jaspy.Webui.Issues.Order.{keep}
use jaspy.Webui.Times.{ago}
use jaspy.Webui.Badges.{Badge, badge, badge_ok, badge_warn, badge_bad, badge_muted}
use jaspy.Webui.Client.Calls.{Encoding}
use jaspy.Webui.Parts.{Part, plain, mono, muted, anchor, badge_part, toned, if_given, device_link}
pub mod Body
pub mod Acked

module _ (platform : Platform) where
  unfoldable pub explain_exact : String → Option String
  explain_exact kind =
      if str_eq kind "stp-root-mismatch"
      then some
          "This device names a different root bridge than the one jaspy elected for the VLAN. Compare the two bridge IDs below — the lower one is the root STP would actually choose."
      else if str_eq kind "stp-unmonitored-root"
      then some
          "The VLAN's real root bridge (the lowest bridge ID) is a switch jaspy does not poll. This device correctly points at it — the finding is that the true root is off-fleet, not that this device is misconfigured. Add the upstream bridge to monitoring to resolve it."
      else if str_eq kind "stp-orphan"
      then some
          "This device has a root port (an upstream toward the root) but jaspy could not resolve the neighbour on it — usually an unmonitored switch or a missing discovered link."
      else if str_eq kind "device-down"
      then some
          "The device stopped answering polls. Check power, the management link, and SNMP reachability."
      else if str_eq kind "poe-budget"
      then some
          "A PoE power supply is running near its budget. New powered devices on this switch may fail to power up."
      else if str_eq kind "poe-pse-down"
      then some "A PoE power supply is not operational — ports it feeds cannot deliver power."
      else if str_eq kind "lag:member-link-down"
      then some
          "One member of this LACP uplink bundle is physically down while another is still up — the uplink keeps working but has lost its redundancy. The verdict below names the most likely loose cable end."
      else if str_eq kind "iface-flapping"
      then some
          "This port keeps going down and back up. If it connects to another switch (see the far end below), a flapping inter-switch link is usually a bad cable, a dirty/failing SFP, or a duplex/speed mismatch — check both ends."
      else if str_eq kind "iface-err-disabled"
      then some
          "The switch has error-disabled this port — it detected a fault (see the cause below) and forced the port down. It stays down until the errdisable condition is cleared (auto-recovery, or a manual shut/no shut). Fix the underlying cause first, or the port will trip again."
      else if str_eq kind "lag:speed-mismatch"
      then some
          "Members of this port-channel are up but running at different link speeds — usually a faulty cable or a duplex/auto-negotiation fault forcing one leg to a lower speed. The bundle still forms, but throughput is capped and traffic hashes unevenly. Check the slow member’s cabling and port settings."
      else none

  -- The first prefix that fits counts: "multiple-roots" does not begin "multiple-root-ports".
  unfoldable pub explain_prefix : String → Option String
  explain_prefix kind =
      if platform.starts_with kind "stp-flag:multiple-roots"
      then some
          "Two or more bridges each believe they are this VLAN’s root, so spanning tree has not converged to a single tree. Whether that is dangerous depends on whether they share a path — the claimed roots and their connectivity are below."
      else if platform.starts_with kind "stp-flag:no-root"
      then some
          "The VLAN has spanning-tree nodes but no elected root bridge — an incomplete or partitioned view."
      else if platform.starts_with kind "stp-flag:cycle"
      then some
          "The computed spanning tree contains a cycle — a physical or logical loop STP has not resolved."
      else if platform.starts_with kind "stp-flag:multiple-root-ports"
      then some "A device has more than one root port on this VLAN — an ambiguous path to the root."
      else if platform.starts_with kind "iface-"
      then some
          "An interface-health signal crossed its threshold. The counters below are over the stated window."
      else if platform.starts_with kind "lag:"
      then some
          "A link-aggregation (port-channel) consistency check failed. Members may not be bundling as intended."
      else none

  unfoldable pub explain_kind : String → Option String
  unfolding explain_exact explain_prefix
  explain_kind kind =
      let by_prefix = explain_prefix kind in
      elim (explain_exact kind) [ none ↦ by_prefix | some explained ↦ some explained ]

module _ (encoding : Encoding) where
  unfoldable pub peer_parts : Option InterfaceConnection → Option CdpNeighbor → List Part
  peer_parts (some peer) cdp =
      let port = if str_eq peer.interface "" then "" else str_append ":" peer.interface in
      plain " · ↔ " ∷ device_link encoding peer.fqdn (str_append peer.fqdn port) ∷ []
  peer_parts none none = []
  peer_parts none (some cdp) =
      let port : String = elim cdp.device_port [
        | none ↦ ""
        | some p ↦ if str_eq p "" then "" else str_append ":" p
      ] in
      muted (join "" (" · ↔ " ∷ cdp.device_id ∷ port ∷ " (CDP)" ∷ [])) ∷ []

  state_badge : String → List Part
  state_badge s = badge_part (badge (if str_eq s "up" then badge_ok else badge_bad) s) ∷ []

  speed_parts : Option ℕ → List Part
  speed_parts none = []
  speed_parts (some n) = muted (join "" (" · " ∷ encoding.show n ∷ " Mb/s" ∷ [])) ∷ []

  priority_parts : Option ℕ → List Part
  priority_parts none = []
  priority_parts (some n) = plain (str_append " · priority " (encoding.show n)) ∷ []

  unfoldable pub detail_value : IssueDetailValue → List Part
  unfolding peer_parts state_badge speed_parts priority_parts
  detail_value (text t) = plain t ∷ []
  detail_value (mac address monitored) =
      mono address ∷ (if monitored then [] else badge_part (badge badge_warn "off-fleet") ∷ [])
  detail_value (device fqdn hostname) = device_link encoding fqdn (or_else hostname fqdn) ∷ []
  detail_value (interface name state) =
      plain name ∷ if_given state (λ s. muted (join "" (" (" ∷ s ∷ ")" ∷ [])) ∷ [])
  detail_value (verdict t tone) = toned tone t ∷ []
  detail_value (link href t) = anchor href (str_append t " →") ∷ []
  detail_value (stp_root fqdn hostname address priority preferred) =
      device_link encoding fqdn (or_else hostname fqdn) ∷ priority_parts priority
      ++ if_given address (λ m. plain " · " ∷ mono m ∷ [])
      ++ (if preferred then badge_part (badge badge_ok "STP would elect this") ∷ [] else [])
  detail_value (member name state speed media peer cdp) =
      mono name ∷ if_given state state_badge
      ++ speed_parts speed
      ++ if_given media (λ m. muted (str_append " · " m) ∷ [])
      ++ peer_parts peer cdp
