-- ===== src/Webui/DeviceDetail/Bundles.antt =====
-- nexus/webui/src/pages/DeviceDetail.tsx: the section of the port-channels.
use jaspy.Prelude.{
  ℕ, Bool, ◌||◌, String, Option, none, some, List, [], ◌∷◌, ◌++◌, map, if◌then◌else◌, str_eq,
  str_append, ltb, length,
}
use jaspy.Webui.Platform.{Platform}
use jaspy.Webui.Text.{split, join}
use jaspy.Webui.Types.{InterfaceConnection, CdpNeighbor}
use jaspy.Webui.Issues.{any}
use jaspy.Webui.Badges.{Badge, badge, badge_ok, badge_warn, badge_bad, badge_muted, up_badge}
use jaspy.Webui.Client.Calls.{Encoding}
use jaspy.Webui.Parts.{Part, plain, muted, badge_part, device_link, if_given}

pub record PortChannelMember : Type 0 where
  pub ifindex : ℕ
  pub name : Option String
  pub up : Option Bool
  pub speed : Option ℕ
  pub media : Option String
  pub connected_to : Option InterfaceConnection
  pub cdp_neighbor : Option CdpNeighbor
  pub actor_state : List String
  pub partner_state : List String
  pub partner_port : Option ℕ
  pub bundled : Bool

pub record PortChannel : Type 0 where
  pub ifindex : ℕ
  pub name : Option String
  pub alias : Option String
  pub up : Option Bool
  pub protocol : String
  pub partner_system_id : Option String
  pub members : List PortChannelMember
  pub warnings : List String

-- `code.split(':', 2)`: what is behind a second colon is left out. A detail that is not there is
-- written as `undefined`.
unfoldable pub kind_and_detail : String → String × String
kind_and_detail code = elim (split ":" code) [
  | [] ↦ (code, "undefined")
  | kind ∷ rest ↦
      let detail : String = elim rest [ [] ↦ "undefined" | d ∷ more ↦ d ] in (kind, detail)
]

unfoldable pub warning_text : String → String → String → String
unfolding join
warning_text code kind detail =
    if str_eq kind "not-lacp"
    then join "" ("not running LACP (" ∷ detail ∷ ")" ∷ [])
    else if str_eq kind "single-member"
    then "only one member port"
    else if str_eq kind "member-no-lacp-partner"
    then str_append detail ": the far end is not running LACP on this link"
    else if str_eq kind "member-not-bundled"
    then str_append detail ": configured but not bundled"
    else if str_eq kind "members-report-different-partners"
    then "members are bundled to different switches (LACP partner ids differ)"
    else if str_eq kind "members-wired-to-different-devices"
    then "members are cabled to different devices"
    else if str_eq kind "far-end-lag-not-found"
    then "the far-end switch has no matching port-channel"
    else if str_eq kind "far-end-member-count-mismatch"
    then "the far-end port-channel has a different member count"
    else code

unfoldable pub port_channel_warning_text : String → String
unfolding kind_and_detail warning_text
port_channel_warning_text code =
    let (kind, detail) = kind_and_detail code in warning_text code kind detail

unfoldable pub member_state_badge : PortChannelMember → Badge
member_state_badge m =
    let lost = any (λ s. str_eq s "defaulted" || str_eq s "expired") m.actor_state in
    if m.bundled
    then badge badge_ok "bundled"
    else if lost
    then badge badge_bad "no partner"
    else if ltb 0 (length m.actor_state)
    then badge badge_warn "negotiating"
    else badge badge_muted "no LACP"

module _ (platform : Platform) (encoding : Encoding) where
  unfoldable pub name_or_index : Option String → ℕ → String
  name_or_index none ifindex = str_append "ifIndex " (platform.show ifindex)
  name_or_index (some name) ifindex = name

  first_label : String → String
  first_label fqdn = elim (split "." fqdn) [ [] ↦ "" | host ∷ rest ↦ host ]

  unfoldable pub connection_parts : Option InterfaceConnection → List Part
  unfolding first_label
  connection_parts none = plain "—" ∷ []
  connection_parts (some c) =
      device_link encoding c.fqdn (first_label c.fqdn) ∷ plain (str_append ":" c.interface) ∷ []

  -- The cells of a member.
  unfoldable pub member_cells : PortChannelMember → List (List Part)
  unfolding name_or_index member_state_badge connection_parts join
  member_cells m =
      let port : String = elim m.partner_port [ none ↦ "—" | some n ↦ platform.show n ] in
      let states = if ltb 0 (length m.actor_state) then join ", " m.actor_state else "—" in
      (plain (name_or_index m.name m.ifindex) ∷ [])
      ∷ (badge_part (member_state_badge m) ∷ [])
      ∷ connection_parts m.connected_to
      ∷ (plain port ∷ [])
      ∷ (muted states ∷ [])
      ∷ []

  unfoldable pub channel_title : PortChannel → List Part
  unfolding name_or_index up_badge
  channel_title po =
      let class = if str_eq po.protocol "lacp" then badge_ok else badge_warn in
      plain (name_or_index po.name po.ifindex)
        ∷ badge_part (up_badge po.up)
        ∷ badge_part (badge class po.protocol)
        ∷ if_given po.alias (λ a. muted a ∷ [])
      ++ if_given po.partner_system_id (λ id. muted (str_append "partner " id) ∷ [])

  unfoldable pub channel_warnings : PortChannel → List String
  unfolding port_channel_warning_text
  channel_warnings po = map (λ code. str_append "⚠ " (port_channel_warning_text code)) po.warnings
