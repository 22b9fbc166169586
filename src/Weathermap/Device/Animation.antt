-- ===== src/Weathermap/Device/Animation.antt =====
-- weathermap/js/device.js: one frame of a device's animation. Neighbours are looked up among the
-- devices of the graph; one that is not there is no object, and reading it throws.
use jaspy.Prelude.{
  Bool, String, Option, none, some, List, [], ◌∷◌, Dict, get, if◌then◌else◌, str_eq, Outcome, done,
  threw,
}
use jaspy.Weathermap.Numbers.{Double, Victor, Vec, vec, int}
use jaspy.Weathermap.Config.{Config, scalar}
use jaspy.Weathermap.World.{World, request_updates}
use jaspy.Weathermap.Effect
use jaspy.Weathermap.Effect.{Effect}
use jaspy.Weathermap.Device.{Device, set_position, is_super_node, is_large_icon}

module _ {S : Type 0} ⦃num : Double S⦄ where
  -- Finished effects are taken off the screen, the others move on.
  unfoldable pub step_effects : List (Effect S) → World S → World S × List (Effect S)
  step_effects [] w = (w, [])
  step_effects (e ∷ rest) w =
      let (w', kept) =
        step_effects rest (if Effect.finished e then Effect.destroy e w else request_updates w) in
      (w', if Effect.finished e then kept else Effect.update_animation e ∷ kept)

  unfoldable pub effect_animation : World S → Device S → World S × Device S
  unfolding step_effects
  effect_animation w d =
      let (w', kept) = step_effects d.attached_effects w in
      (w', record d { attached_effects = kept })

module _ {S : Type 0} ⦃num : Double S⦄ ⦃vic : Victor S⦄ where
  -- Towards the requested position by a tenth of the way, and onto it from less than 1/4.
  unfoldable pub super_node_animation : World S → Device S → World S × Device S
  super_node_animation w d = elim d.requested_position [
    | none ↦ (w, d)
    | some target ↦
        let offset = vic.subtract target d.position in
        (
          request_updates w,
          if num.lt (vic.length offset) (num.ratio 1 4)
              then record (set_position target d) { requested_position = none }
              else set_position (vic.add d.position (vic.multiply offset (scalar (num.ratio 1 10))))
                  d,
        )
  ]

  -- The pull of the spring to the neighbour.
  unfoldable pub spring_offset : S → Vec S → Vec S → Vec S
  spring_offset distance mine nbr =
      let dirv = vic.normalize (vic.subtract nbr mine) in
      let target = vic.subtract nbr (vic.multiply dirv (scalar distance)) in
      let to_target = vic.subtract target mine in
      if num.lt (vic.length to_target) (int 1)
      then to_target
      else vic.multiply to_target (scalar (num.ratio 1 5))

  -- The push away from one other neighbour of the neighbour.
  unfoldable pub sibling_force : S → Vec S → Vec S → Vec S → Vec S
  sibling_force distance self_dv center other =
      let perp = vic.rotate_deg self_dv (int 90) in
      let inv = vic.invert (vic.normalize (vic.subtract other center)) in
      let angle = num.mul (num.acos (vic.dot self_dv inv)) (num.sign (vic.cross inv self_dv)) in
      let factor = num.mul (num.mul (num.neg angle) (num.div distance (int 20))) (num.ratio 1 2) in
      vic.multiply perp (scalar factor)

  -- The loop over `clusterCenter.neighborDevices`, the device itself left out.
  unfoldable pub sibling_forces :
      Dict (Device S) → S → String → Vec S → Vec S → List String → Vec S → Option (Vec S)
  unfolding sibling_force
  sibling_forces devices distance self self_dv center [] total = some total
  sibling_forces devices distance self self_dv center (n ∷ rest) total =
      let skipped = sibling_forces devices distance self self_dv center rest total in
      let added : Option (Vec S) = elim (get n devices) [
        | none ↦ none
        | some other ↦
            sibling_forces devices distance self self_dv center rest
              (vic.add total (sibling_force distance self_dv center other.position))
      ] in
      if str_eq n self then skipped else added

  unfoldable pub edge_offset :
      Config S → Dict (Device S) → Bool → Device S → Device S → Option (Vec S)
  unfolding spring_offset sibling_forces
  edge_offset config devices large d nbr =
      let distance =
        if large then num.mul config.spring_distance (int 3) else config.spring_distance in
      let self_dv = vic.normalize (vic.subtract d.position nbr.position) in
      let pull = vic.add (vec (int 0) (int 0)) (spring_offset distance d.position nbr.position) in
      elim (sibling_forces devices distance d.fqdn self_dv nbr.position nbr.neighbor_devices
        (vec (int 0) (int 0))) [ none ↦ none | some force ↦ some (vic.add pull force) ]

  unfoldable pub move_edge : World S → Device S → Vec S → World S × Device S
  move_edge w d offset = (
    if num.lt (num.ratio 1 10) (vic.length offset) then request_updates w else w,
    set_position (vic.add d.position offset) d,
  )

  unfoldable pub edge_node_animation :
      Config S → Dict (Device S) → World S → Device S → Outcome (World S × Device S)
  unfolding edge_offset move_edge
  edge_node_animation config devices w d = elim d.neighbor_devices [
    | [] ↦ done (w, d)
    | n ∷ more ↦ elim more [
      | _ ∷ _ ↦ done (w, d)
      | [] ↦ if d.drag_info then done (w, d) else elim (is_large_icon devices d) [
        | none ↦ threw (w, d)
        | some large ↦ elim (get n devices) [
          | none ↦ threw (w, d)
          | some nbr ↦ elim (edge_offset config devices large d nbr) [
            | none ↦ threw (w, d)
            | some offset ↦ done (move_edge w d offset)
          ]
        ]
      ]
    ]
  ]

  unfoldable pub update_animation :
      Config S → Dict (Device S) → World S → Device S → Outcome (World S × Device S)
  unfolding effect_animation super_node_animation edge_node_animation
  update_animation config devices w d =
      let (w', d') = effect_animation w d in
      if is_super_node d'
      then done (super_node_animation w' d')
      else edge_node_animation config devices w' d'
