-- ===== src/Webui/DeviceDetail/Cells/Interfaces.antt =====
-- nexus/webui/src/pages/DeviceDetail.tsx: the cells of an interface.
use jaspy.Prelude.{
  ℕ, String, Option, none, some, List, [], ◌∷◌, ◌++◌, map, if◌then◌else◌, str_append,
}
use jaspy.Webui.Platform.{Platform}
use jaspy.Webui.Types.{InterfaceConnection, CdpNeighbor}
use jaspy.Webui.DeviceTypes.{Interface, InterfaceHealth}
use jaspy.Webui.Badges.{Badge, badge, badge_warn, badge_muted, up_badge, err_disabled_badge}
use jaspy.Webui.Badges
use jaspy.Webui.Tables.{cdp_neighbor_text}
use jaspy.Webui.Client.Calls.{Encoding}
use jaspy.Webui.Parts.{Part, plain, muted, badge_part, device_link, if_given}
use jaspy.Webui.DeviceDetail.{summarize_tagged_vlans}
use jaspy.Webui.DeviceDetail.Health
use jaspy.Webui.DeviceDetail.Health.{discard_badge, health_badge, interface_health_badges}
use jaspy.Webui.DeviceDetail.Controls.{Controls, number_in}
use jaspy.Webui.DeviceDetail.Cells.{or_dash, show_or_dash, poe_cell}

health_part : Health.Badge → Part
health_part discard_badge =
    badge_part (record { class = badge_warn; text = "🗑"; title = some "high outgoing discards" })
health_part (health_badge severity) = badge_part (Badges.health_badge severity none)

health_parts : Option InterfaceHealth → List Part
unfolding health_part interface_health_badges
health_parts none = []
health_parts (some health) = map health_part (interface_health_badges health)

module _ (platform : Platform) (encoding : Encoding) where
  neighbor_parts : Option InterfaceConnection → Option CdpNeighbor → List Part
  unfolding cdp_neighbor_text
  neighbor_parts (some c) n =
      device_link encoding c.fqdn c.fqdn ∷ plain (str_append ":" c.interface) ∷ []
  neighbor_parts none (some n) = plain (cdp_neighbor_text n) ∷ muted "(CDP)" ∷ []
  neighbor_parts none none = plain "—" ∷ []

  name_parts : Controls → Interface → List Part
  unfolding number_in
  name_parts c i =
      let name : String = elim i.display_name [ none ↦ i.name | some n ↦ n ] in
      let caret = if number_in i.id c.expanded_detail then " ▾" else " ▸" in
      plain (str_append name caret)
      ∷ if_given i.port_channel (λ po. badge_part (badge badge_muted po) ∷ [])

  state_parts : Interface → List Part
  unfolding up_badge err_disabled_badge health_parts
  state_parts i =
      let disabled = badge_part (err_disabled_badge i.err_disable_cause) ∷ [] in
      badge_part (up_badge i.up) ∷ (if i.err_disabled then disabled else [])
      ++ health_parts i.health

  tagged_text : Option (List ℕ) → String
  tagged_text none = "—"
  tagged_text (some []) = "—"
  tagged_text (some vlans) = summarize_tagged_vlans platform vlans

  speed_text : Option ℕ → String
  speed_text none = "—"
  speed_text (some n) = str_append (platform.show n) " Mb/s"

  unfoldable pub interface_cells : Controls → Interface → List (List Part)
  unfolding name_parts state_parts tagged_text speed_text show_or_dash poe_cell neighbor_parts
  interface_cells c i =
      name_parts c i
      ∷ state_parts i
      ∷ (plain (speed_text i.speed) ∷ [])
      ∷ (plain (show_or_dash platform i.native_vlan) ∷ [])
      ∷ (plain (tagged_text i.tagged_vlans) ∷ [])
      ∷ (poe_cell platform i.poe ∷ [])
      ∷ (plain (or_dash i.alias) ∷ [])
      ∷ (plain i.interface_type ∷ [])
      ∷ neighbor_parts i.connected_to i.cdp_neighbor
      ∷ []
