-- ===== src/Weathermap/Device.antt =====
-- weathermap/js/device.js: the state of a device on the map, and what its methods ask of it. A
-- neighbour is named by its FQDN: the graph holds one object for each, and rebuilds the lists of
-- neighbours whenever it adds or removes one.
pub mod Topology
pub mod Status
pub mod Input
pub mod StatusLaws
pub mod Drag
pub mod Animation
pub mod Linked
pub mod Keeps
pub mod Groups
pub mod Fading
pub mod Animates
pub mod Draw
pub mod Drawn
use jaspy.Prelude.{
  ℕ, ◌+◌, ◌<◌, Bool, true, false, not, ◌||◌, String, Option, none, some, List, [], ◌∷◌, Dict, get,
  map_values, if◌then◌else◌, ltb, length,
}
use jaspy.Weathermap.Numbers.{Double, Vec, vec, int, same_place, round_vec}
use jaspy.Weathermap.Interface.{Ref, stale_after}
use jaspy.Weathermap.World.{World, GraphicsInfo, Object, request_updates, detach}
use jaspy.Weathermap.Util.{hostname_from_fqdn}
use jaspy.Weathermap.LinkGroup
use jaspy.Weathermap.LinkGroup.{LinkGroup}
use jaspy.Weathermap.Effect.{Effect}

-- `dragInfo` is `{}` or `null`: a Boolean. `text` is set with the graphics.
pub record Device (S : Type 0) : Type 0 where
  pub fqdn : String
  pub hostname : String
  pub interfaces : Dict Ref
  pub link_groups : Dict (LinkGroup S)
  pub graphics : Option GraphicsInfo
  pub text : Object
  pub graphics_dirty : Bool
  pub status : Option Bool
  pub drag_info : Bool
  pub attached_effects : List (Effect S)
  pub position : Vec S
  pub requested_position : Option (Vec S)
  pub last_update : ℕ
  pub stale : Bool
  pub neighbor_devices : List String
  pub super_node : Option Bool
  pub super_node_by_config : Bool
  pub expanded : Option Bool
  pub expanded_by_default : Bool

abbrev pub truthy_flag : Option Bool → Bool
truthy_flag none = false
truthy_flag (some b) = b

module _ {S : Type 0} ⦃num : Double S⦄ where
  -- `graphicsDirty` is set, so that the device is drawn again, unless it already stands there.
  unfoldable pub set_position : Vec S → Device S → Device S
  set_position p d =
      if same_place p d.position then d else record d { position = p; graphics_dirty = true }

  -- The constructor: it stands at a random place.
  unfoldable pub new_device : String → World S → World S × Device S
  unfolding set_position
  new_device fqdn w =
      let px = num.mul (w.random w.draws) (int 1600) in
      let py = num.mul (w.random (w.draws + 1)) (int 400) in
      (
        record w { draws = w.draws + 2 },
        set_position (vec px py) (record {
          fqdn = fqdn;
          hostname = hostname_from_fqdn fqdn;
          interfaces = [];
          link_groups = [];
          graphics = none;
          text = 0;
          graphics_dirty = false;
          status = none;
          drag_info = false;
          attached_effects = [];
          position = vec (int 0) (int 0);
          requested_position = none;
          last_update = 0;
          stale = false;
          neighbor_devices = [];
          super_node = none;
          super_node_by_config = false;
          expanded = none;
          expanded_by_default = false;
        }),
      )

module _ {S : Type 0} where
  unfoldable pub is_expanded : Device S → Bool
  is_expanded d = elim d.expanded [ none ↦ d.expanded_by_default | some b ↦ b ]

  unfoldable pub is_super_node : Device S → Bool
  is_super_node d = if d.super_node_by_config then true else truthy_flag d.super_node

  -- `checkStale`, at the time `now`.
  unfoldable pub check_stale : ℕ → Device S → Device S
  check_stale now d =
      if ltb (d.last_update + stale_after) now
      then (if d.stale then d else record d { status = none; graphics_dirty = true; stale = true })
      else record d { stale = false }

  -- `isLargeIcon`; `none` is the TypeError of `neighborDevices[0].isExpanded()` without one.
  unfoldable pub is_large_icon : Dict (Device S) → Device S → Option Bool
  unfolding is_expanded is_super_node
  is_large_icon devices d = if is_super_node d then some true else elim d.neighbor_devices [
    | [] ↦ none
    | n ∷ _ ↦ elim (get n devices) [
      | none ↦ none
      | some nbr ↦ some (is_expanded nbr || is_expanded d)
    ]
  ]

  unfoldable pub interface_update_event : Device S → Device S
  interface_update_event d = record d {
    link_groups = map_values LinkGroup.interfaces_updated d.link_groups;
  }
