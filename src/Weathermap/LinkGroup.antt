-- ===== src/Weathermap/LinkGroup.antt =====
-- weathermap/js/linkgroup.js: the links of a device to one neighbour.
pub mod Draw
pub mod Laws
use jaspy.Prelude.{
  ℕ, Bool, true, false, String, Option, none, some, List, [], ◌∷◌, Dict, get, has, put, delete,
  if◌then◌else◌, ◌&&◌,
}
use jaspy.Weathermap.Numbers.{Double, Vec, vec, int, same_place, round_vec}
use jaspy.Weathermap.Interface.{Ref, Connection}
use jaspy.Weathermap.World.{World, GraphicsInfo, Object, modify, detach, new_text}
use jaspy.Weathermap.Link
use jaspy.Weathermap.Link.{Link}

pub record LinkGroup (S : Type 0) : Type 0 where
  pub name : String
  pub target : String
  pub target_position : Vec S
  pub grouped_links : Dict Link
  pub graphics : Option GraphicsInfo
  pub position : Option (Vec S)
  pub graphics_dirty : Bool
  pub source : String
  pub label : Object
  pub show_label : Bool

-- One entry of `linkgroupInfo`: the members that the group reads of the interface's data.
pub record LinkUpdate : Type 0 where
  pub connection : Connection
  pub interface : Ref

module _ {S : Type 0} ⦃num : Double S⦄ where
  unfoldable pub new_link_group : String → String → World S → World S × LinkGroup S
  new_link_group source name w =
      let (w', label) = new_text "<loading>" w in
      (
        w',
        record {
          name = name;
          target = name;
          target_position = vec (int 0) (int 0);
          grouped_links = [];
          graphics = none;
          position = none;
          graphics_dirty = false;
          source = source;
          label = label;
          show_label = false;
        },
      )

module _ {S : Type 0} where
  -- The first loop of `updateTopologyData`: a link for each new remote interface.
  unfoldable pub add_links :
      List (String × LinkUpdate) → World S × LinkGroup S → World S × LinkGroup S
  add_links [] s = s
  add_links ((key, value) ∷ rest) (w, g) = add_links rest (
      if has key g.grouped_links
      then (w, g)
      else (let (w', link) = Link.new_link value.connection.interface value.interface w in
          (
            w',
            record g {
              grouped_links = put value.connection.interface link g.grouped_links;
              graphics_dirty = true;
            },
          )))

  -- The second loop, over the entries before it: links whose remote interface is gone.
  unfoldable pub drop_links :
      Dict LinkUpdate → List (String × Link) → World S × LinkGroup S → World S × LinkGroup S
  drop_links info [] s = s
  drop_links info ((key, value) ∷ rest) (w, g) = drop_links info rest (
      if has key info then (w, g) else (
        Link.destroy value w,
        record g { grouped_links = delete key g.grouped_links; graphics_dirty = true },
      ))

  unfoldable pub update_topology_data :
      Dict LinkUpdate → World S → LinkGroup S → World S × LinkGroup S
  update_topology_data info w g =
      let s = add_links info (w, g) in drop_links info s.1.grouped_links s

  destroy_links : List (String × Link) → World S → World S
  destroy_links [] w = w
  destroy_links ((key, value) ∷ rest) w = destroy_links rest (Link.destroy value w)

  -- The group itself is dropped by its caller.
  unfoldable pub destroy : LinkGroup S → World S → World S
  unfolding destroy_links
  destroy g w = detach g.graphics (destroy_links g.grouped_links w)

  -- The loop of `updateTargetInfo`; the target device is given by its interfaces.
  unfoldable pub connect_links : Dict Ref → List (String × Link) → World S → World S
  connect_links interfaces [] w = w
  connect_links interfaces ((key, value) ∷ rest) w = connect_links interfaces rest (
      modify value.source_interface
        (λ i. record i { connected_to_interface = get value.remote_interface_name interfaces }) w)

  unfoldable pub update_target_info :
      Vec S → Dict Ref → LinkGroup S → World S → World S × LinkGroup S
  unfolding connect_links
  update_target_info position interfaces g w =
      (connect_links interfaces g.grouped_links w, record g { target_position = position })

module _ {S : Type 0} where
  unfoldable pub interfaces_updated : LinkGroup S → LinkGroup S
  interfaces_updated g = record g { graphics_dirty = true }

module _ {S : Type 0} ⦃num : Double S⦄ where
  sum_links : (Link → S) → List (String × Link) → S → S
  sum_links f [] total = total
  sum_links f ((key, value) ∷ rest) total = sum_links f rest (num.add total (f value))

  unfoldable pub total_usage : ℕ → World S → LinkGroup S → S
  unfolding sum_links
  total_usage now w g = sum_links (Link.get_usage now w) g.grouped_links (int 0)

  unfoldable pub total_speed : ℕ → World S → LinkGroup S → S
  unfolding sum_links
  total_speed now w g = sum_links (Link.get_speed now w) g.grouped_links (int 0)

  unfoldable pub set_position : Vec S → LinkGroup S → LinkGroup S
  set_position position g =
      let p = round_vec position in
      let moved = record g { position = some p; graphics_dirty = true } in
      elim g.position [ none ↦ moved | some q ↦ if same_place p q then g else moved ]
