-- ===== src/Weathermap/Link.antt =====
-- weathermap/js/link.js: one link of a group, from an interface to its peer.
pub mod Draw
pub mod Laws
use jaspy.Prelude.{ℕ, Bool, false, String, Option, none, some, ◌||◌, not, if◌then◌else◌, is_some}
use jaspy.Weathermap.Numbers.{Double, int, or_zero}
use jaspy.Weathermap.Interface.{Ref, Interface, Stats, is_stale}
use jaspy.Weathermap.World.{World, GraphicsInfo, Object, modify, detach, new_text}

pub record Link : Type 0 where
  pub remote_interface_name : String
  pub graphics : Option GraphicsInfo
  pub dirty : Bool
  pub source_interface : Ref
  pub label : Object
  pub show_label : Bool

-- A status in a condition: `null` counts as false.
abbrev pub or_down : Option Bool → Bool
or_down none = false
or_down (some b) = b

module _ {S : Type 0} where
  -- The object at the other end of the source interface.
  unfoldable pub peer : World S → Link → Option (Interface S)
  peer w l = elim (w.heap l.source_interface).connected_to_interface [
    | none ↦ none
    | some r ↦ some (w.heap r)
  ]

  unfoldable pub source : World S → Link → Interface S
  source w l = w.heap l.source_interface

  -- `new Link(…)`
  unfoldable pub new_link : String → Ref → World S → World S × Link
  new_link remote source w =
      let (w', label) = new_text "<loading>" w in
      (
        w',
        record {
          remote_interface_name = remote;
          graphics = none;
          dirty = false;
          source_interface = source;
          label = label;
          show_label = false;
        },
      )

  unfoldable pub destroy : Link → World S → World S
  destroy l w =
      detach l.graphics
        (modify l.source_interface (λ i. record i { connected_to_interface = none }) w)

  pub own_status : World S → Link → Option Bool
  unfolding source
  own_status w l = (source w l).status

  pub peer_status : World S → Link → Option Bool
  unfolding peer
  peer_status w l = elim (peer w l) [ none ↦ none | some p ↦ p.status ]

  -- The link's own interface decides, unless it has no status or is stale.
  unfoldable pub is_up : ℕ → World S → Link → Bool
  unfolding own_status peer_status source
  is_up now w l =
      if not (is_some (own_status w l)) || is_stale now (source w l)
      then or_down (peer_status w l)
      else or_down (own_status w l)

  abbrev field : (Stats S → Option S) → Option (Stats S) → Option S
  field f none = none
  field f (some s) = f s

  -- A member of the link's own statistics, unless the interface is stale.
  unfoldable pub own_stat : (Stats S → Option S) → ℕ → World S → Link → Option S
  unfolding source
  own_stat f now w l =
      if is_stale now (source w l) then none else field f (source w l).statistics_data

  -- A member of the peer's statistics, stale or not.
  unfoldable pub peer_stat : (Stats S → Option S) → World S → Link → Option S
  unfolding peer
  peer_stat f w l = elim (peer w l) [ none ↦ none | some p ↦ field f p.statistics_data ]

  abbrev pub first_of_two : Option S → Option S → S → S
  first_of_two (some a) _ z = a
  first_of_two none (some b) z = b
  first_of_two none none z = z

-- `sourceInterface` is set by the constructor, so the outer `if` of these three is always taken.
module _ {S : Type 0} ⦃num : Double S⦄ where
  unfoldable pub get_speed : ℕ → World S → Link → S
  unfolding own_stat peer_stat
  get_speed now w l =
      first_of_two (own_stat (λ s. s.speed_mbps) now w l) (peer_stat (λ s. s.speed_mbps) w l)
        (int 0)

  unfoldable pub get_usage : ℕ → World S → Link → S
  unfolding own_stat peer_stat
  get_usage now w l =
      first_of_two (own_stat (λ s. s.tx_mbps) now w l) (peer_stat (λ s. s.rx_mbps) w l) (int 0)

  -- `tx_mbps / speed_mbps`, where a `speed_mbps` that is `null` counts as 0.
  own_utilization : Stats S → Option S
  own_utilization s = elim s.tx_mbps [
    | none ↦ none
    | some tx ↦ some (num.div tx (or_zero s.speed_mbps))
  ]

  peer_utilization : Stats S → Option S
  peer_utilization s = elim s.rx_mbps [
    | none ↦ none
    | some rx ↦ elim s.speed_mbps [ none ↦ none | some speed ↦ some (num.div rx speed) ]
  ]

  unfoldable pub get_utilization : ℕ → World S → Link → S
  unfolding own_stat peer_stat own_utilization peer_utilization
  get_utilization now w l =
      first_of_two (own_stat own_utilization now w l) (peer_stat peer_utilization w l) (int 0)
