-- ===== src/Weathermap/Device/Animates.antt =====
-- weathermap/js/device.js: what `updateAnimation` reads of a device's neighbours.
use jaspy.Prelude.{
  Bool, String, some, List, [], ◌∷◌, Dict, get, ◌≡◌, refl, arith, done, All, Option-cases,
  Bool-cases, inl, inr, str_eq, subst, if◌then◌else◌,
}
use jaspy.Weathermap.Numbers.{Double, Victor, Vec, int, vec}
use jaspy.Weathermap.Config.{Config}
use jaspy.Weathermap.World.{World}
use jaspy.Weathermap.Device.{Device, is_super_node, is_large_icon}
use jaspy.Weathermap.Device.Animation.{
  sibling_forces, edge_offset, move_edge, edge_node_animation, effect_animation, update_animation,
}
use jaspy.Weathermap.Device.Linked.{IsLinked, Known, has-get, is_large_icon-IsLinked}

module _ {S : Type 0} ⦃num : Double S⦄ ⦃vic : Victor S⦄ where
  sibling_forces-some :
      (devices : Dict (Device S)) (distance : S) (self : String) (self_dv center : Vec S)
      (ns : List String) (total : Vec S)
      → All (Known devices) ns
      → (v : Vec S) × (sibling_forces devices distance self self_dv center ns total ≡ some v)
  unfolding sibling_forces
  sibling_forces-some devices distance self self_dv center [] total h = (total, refl)
  sibling_forces-some devices distance self self_dv center (n ∷ rest) total h =
      let (other, found) = has-get n devices h.0 in
      elim (Bool-cases (str_eq n self)) [
        | inl e ↦ rw e (sibling_forces-some devices distance self self_dv center rest total h.1)
        | inr e ↦
            rw (e, found) (sibling_forces-some devices distance self self_dv center rest _ h.1)
      ]

  edge_offset-some :
      (config : Config S) (devices : Dict (Device S)) (large : Bool) (d nbr : Device S)
      → All (Known devices) nbr.neighbor_devices
      → (v : Vec S) × (edge_offset config devices large d nbr ≡ some v)
  unfolding edge_offset
  edge_offset-some config devices large d nbr h =
      let distance : S =
        if large then num.mul config.spring_distance (int 3) else config.spring_distance in
      let self_dv = vic.normalize (vic.subtract d.position nbr.position) in
      let (v, e) =
        sibling_forces-some devices distance d.fqdn self_dv nbr.position nbr.neighbor_devices
          (vec (int 0) (int 0)) h in
      rw (e, edge_offset) (_, refl)

  edge_node_animation-done :
      (config : Config S) (devices : Dict (Device S)) (w : World S) (d : Device S)
      → ((k : String) (e : Device S) → get k devices ≡ some e → IsLinked devices e)
      → IsLinked devices d
      → (r : World S × Device S) × (edge_node_animation config devices w d ≡ done r)
  unfolding edge_node_animation
  edge_node_animation-done config devices w d all l = go d.neighbor_devices refl
    where
      go :
          (ns : List String)
          → d.neighbor_devices ≡ ns
          → (r : World S × Device S) × (edge_node_animation config devices w d ≡ done r)
      go [] e = ((w, d), ground arith)
      go (n ∷ m ∷ more) e = ((w, d), ground arith)
      go (n ∷ []) e =
          let (nbr, found) = has-get n devices (subst (All (Known devices)) e l.known).0 in
          elim (Option-cases (is_large_icon devices d)) [
            | inl none_large ↦ absurd (is_large_icon-IsLinked devices d l none_large)
            | inr (large, el) ↦
                let (v, eo) = edge_offset-some config devices large d nbr (all n nbr found).known in
                (if d.drag_info then (w, d) else move_edge w d v, ground arith)
          ]

  -- The animation of a linked device among linked devices returns.
  pub update_animation-done :
      (config : Config S) (devices : Dict (Device S)) (w : World S) (d : Device S)
      → ((k : String) (e : Device S) → get k devices ≡ some e → IsLinked devices e)
      → IsLinked devices d
      → (r : World S × Device S) × (update_animation config devices w d ≡ done r)
  unfolding update_animation effect_animation
  update_animation-done config devices w d all l =
      elim (Bool-cases (is_super_node (effect_animation w d).1)) [
        | inl e ↦ rw e (_, refl)
        | inr e ↦ rw e (
            edge_node_animation-done config devices (effect_animation w d).0
              (effect_animation w d).1 all (record { known = l.known; super = l.super }))
      ]
