-- ===== src/Webui/DeviceDetail/Cells.antt =====
-- nexus/webui/src/pages/DeviceDetail.tsx: the cells of the tables of spanning tree and of
-- quality of service, the list of an interface's VLANs, and the sessions of SNMP.
use jaspy.Prelude.{
  ℕ, ◌-◌, ◌+◌, ◌/◌, Bool, true, false, not, ◌&&◌, ◌||◌, String, Option, none, some, List, [], ◌∷◌,
  ◌++◌, map, if◌then◌else◌, str_eq, str_append, ltb, length, max,
}
use jaspy.Webui.Platform.{Platform}
use jaspy.Webui.Text.{join}
use jaspy.Webui.Types.{InterfaceConnection, CdpNeighbor}
use jaspy.Webui.DeviceTypes.{Interface, InterfacePoe, StpPort}
use jaspy.Webui.Badges.{
  Badge, badge, badge_ok, badge_warn, badge_bad, badge_muted, up_badge, err_disabled_badge,
  stp_state_class,
}
use jaspy.Webui.Tables.{cdp_neighbor_text}
use jaspy.Webui.Client.Calls.{Encoding}
use jaspy.Webui.Parts.{Part, plain, muted, anchor, badge_part, device_link, if_given}
use jaspy.Webui.DeviceDetail.{
  QosClass, QosPolice, format_watts, format_vlan_ranges, summarize_tagged_vlans,
}
use jaspy.Webui.DeviceDetail.Health.{group_thousands}
use jaspy.Webui.DeviceDetail.Units.{format_bytes}
use jaspy.Webui.DeviceDetail.Rows.{poe_status_label}
use jaspy.Webui.DeviceDetail.Controls.{Controls, number_in}
pub mod Interfaces

pub data VlanKind : Type 0 where
  native tagged : VlanKind

-- The rows of the list: the native VLAN, then the tagged ones.
unfoldable pub vlan_list : Interface → List (VlanKind × ℕ)
vlan_list i =
    let first : List (VlanKind × ℕ) = elim i.native_vlan [
      | none ↦ []
      | some id ↦ (native, id) ∷ []
    ] in
    let others : List ℕ = elim i.tagged_vlans [ none ↦ [] | some ids ↦ ids ] in
    first ++ map (λ (id : ℕ). (tagged, id)) others

unfoldable pub kind_badge : VlanKind → Badge
kind_badge native = badge badge_ok "native"
kind_badge tagged = badge badge_muted "tagged"

abbrev pub or_dash : Option String → String
or_dash none = "—"
or_dash (some s) = s

-- The newest time, and the whole seconds since it, rounded.
newest : List ℕ → ℕ
newest [] = 0
newest (t ∷ ts) = max t (newest ts)

unfoldable pub updated_ago : ℕ → List ℕ → Option ℕ
unfolding newest
updated_ago now [] = none
updated_ago now (t ∷ ts) = some ((now - newest (t ∷ ts) + 500) / 1000)

-- A session of SNMP, by its VLAN where it is not the primary one.
pub record SnmpSession : Type 0 where
  pub vlan : Option ℕ
  pub port : ℕ
  pub effective_timeout_ms : ℕ
  pub ewma_latency_ms : Option ℕ
  pub consec_timeouts : ℕ
  pub dead : Bool
  pub status : String

pub record SnmpAdaptConfig : Type 0 where
  pub floor_ms : ℕ
  pub ceiling_ms : ℕ
  pub adaptive : Bool

unfoldable pub session_status_badge : String → Badge
session_status_badge status =
    if str_eq status "dead"
    then badge badge_bad "not responding"
    else if str_eq status "slow"
    then badge badge_warn "slow"
    else badge badge_ok "normal"

module _ (platform : Platform) where
  unfoldable pub poe_cell : Option InterfacePoe → Part
  unfolding poe_status_label
  poe_cell none = plain "—"
  poe_cell (some poe) =
      let watts : String = elim (format_watts platform poe.power_mw) [ none ↦ "on" | some w ↦ w ] in
      let class : String = elim poe.poe_class [
        | none ↦ ""
        | some n ↦ str_append " · class " (platform.show n)
      ] in
      if str_eq poe.status "deliveringPower"
      then plain (join "" ("⚡ " ∷ watts ∷ class ∷ []))
      else muted (poe_status_label poe.status)

  unfoldable pub adaptive_text : Option SnmpAdaptConfig → String
  unfolding join
  adaptive_text none = "SNMP adaptive polling · config unavailable"
  adaptive_text (some c) = join "" (
      "SNMP adaptive polling · floor "
      ∷ platform.show c.floor_ms
      ∷ "ms · ceiling "
      ∷ platform.show c.ceiling_ms
      ∷ "ms · adaptive "
      ∷ (if c.adaptive then "on" else "off")
      ∷ [])

  unfoldable pub session_cells : SnmpSession → List Part
  unfolding session_status_badge
  session_cells s =
      let name : String = elim s.vlan [
        | none ↦ "primary"
        | some id ↦ str_append "vlan " (platform.show id)
      ] in
      let rtt : String = elim s.ewma_latency_ms [
        | none ↦ "—"
        | some ms ↦ str_append (platform.show ms) " ms"
      ] in
      plain name
      ∷ plain (str_append (platform.show s.effective_timeout_ms) " ms")
      ∷ plain rtt
      ∷ plain (platform.show s.consec_timeouts)
      ∷ badge_part (session_status_badge s.status)
      ∷ []

  unfoldable pub qos_count : Option ℕ → String
  qos_count none = "—"
  qos_count (some n) = group_thousands platform n

  unfoldable pub qos_bytes : Option ℕ → String
  qos_bytes none = "—"
  qos_bytes (some n) = format_bytes platform n

  abbrev is_positive : Option ℕ → Bool
  is_positive none = false
  is_positive (some n) = ltb 0 n

  -- Drops and what a policer exceeds or violates are marked where there are any.
  unfoldable pub marked_if : Bool → String → Part
  marked_if true t = badge_part (badge badge_warn t)
  marked_if false t = plain t

  police_cells : Option QosPolice → List Part
  unfolding qos_bytes marked_if
  police_cells none = plain "—" ∷ plain "—" ∷ plain "—" ∷ []
  police_cells (some p) =
      plain (qos_bytes p.conform_bytes)
      ∷ marked_if (is_positive p.exceed_bytes) (qos_bytes p.exceed_bytes)
      ∷ marked_if (is_positive p.violate_bytes) (qos_bytes p.violate_bytes)
      ∷ []

  unfoldable pub qos_cells : QosClass → List Part
  unfolding qos_count qos_bytes marked_if police_cells
  qos_cells c =
      plain c.class_map
      ∷ plain (qos_count c.prepolicy_pkts)
      ∷ plain (qos_bytes c.prepolicy_bytes)
      ∷ marked_if (is_positive c.drop_pkts) (qos_count c.drop_pkts)
      ∷ police_cells c.police

  unfoldable pub show_or_dash : Option ℕ → String
  show_or_dash none = "—"
  show_or_dash (some n) = platform.show n

  unfoldable pub stp_cells : StpPort → List Part
  unfolding stp_state_class
  stp_cells p =
      let enabled : Part = elim p.enabled [
        | none ↦ plain "—"
        | some b ↦ if b then plain "yes" else badge_part (badge badge_warn "no")
      ] in
      let name : String = elim p.interface_name [
        | none ↦ str_append "port " (platform.show p.stp_port_id)
        | some n ↦ n
      ] in
      anchor (str_append "/stp?vlan=" (platform.show p.vlan)) (platform.show p.vlan)
      ∷ plain name
      ∷ plain p.role
      ∷ badge_part (badge (stp_state_class p.state) p.state)
      ∷ enabled
      ∷ plain (platform.show p.path_cost)
      ∷ plain (platform.show p.designated_cost)
      ∷ plain (platform.show p.priority)
      ∷ plain (platform.show p.forward_transitions)
      ∷ []
