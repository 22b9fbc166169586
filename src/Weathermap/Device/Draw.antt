-- ===== src/Weathermap/Device/Draw.antt =====
-- weathermap/js/device.js: `updateGraphics`, which draws a device, its name and its links.
use jaspy.Prelude.{
  ℕ, Bool, true, false, not, ◌||◌, String, Option, none, some, List, [], ◌∷◌, Dict, get, put,
  if◌then◌else◌, Outcome, done, threw,
}
use jaspy.Weathermap.Numbers.{Double, Victor, Screen, Vec, int}
use jaspy.Weathermap.Config.{Config}
use jaspy.Weathermap.World.{
  World, Object, Color, PixiCall, emit, new_object, new_text, link_layer, device_layer,
}
use jaspy.Weathermap.Effect
use jaspy.Weathermap.Effect.{Effect}
use jaspy.Weathermap.LinkGroup.{LinkGroup}
use jaspy.Weathermap.LinkGroup.Draw
use jaspy.Weathermap.Device.{Device, is_super_node, is_large_icon}

module _ {S : Type 0} ⦃num : Double S⦄ ⦃screen : Screen S⦄ where
  -- The objects of a device that has none: its square and its name.
  unfoldable pub ensure_graphics : Config S → World S → Device S → World S × Device S
  ensure_graphics config w d = elim d.graphics [
    | some g ↦ (w, d)
    | none ↦
        let (w', g) = new_object device_layer w in
        let (w'', text) = new_text d.hostname w' in
        let half = num.round (num.div (screen.text_width d.hostname) (int 2)) in
        (
          emit
              (PixiCall.set_position text (num.sub (int 0) half)
                  (num.sub (int 0) (num.add config.device_icon_size (int 10)))
                ∷ PixiCall.add_child g.object text
                ∷ [])
              w'',
          record d { graphics = some g; text = text },
        )
  ]

  -- Where the name of a super node stands: above it.
  above_calls : Config S → Device S → List (PixiCall S)
  above_calls config d =
      PixiCall.set_rotation d.text (int 0)
      ∷ PixiCall.set_position d.text
          (num.neg (num.round (num.div (screen.text_width d.hostname) (int 2))))
          (num.neg (num.add config.device_icon_size (int 10)))
      ∷ []

  module _ ⦃vic : Victor S⦄ where
    -- Where the name of any other device stands: behind it, along the line from its neighbour,
    -- and never upside down.
    beside_calls : Config S → Bool → Device S → Vec S → List (PixiCall S)
    beside_calls config large d nbr =
        let dv = vic.normalize (vic.subtract d.position nbr) in
        let perp = vic.normalize (vic.rotate_deg dv (int 90)) in
        let angle = vic.horizontal_angle dv in
        let offset =
          if large then config.device_icon_size else num.div config.device_icon_size (int 4) in
        let far = num.add offset (screen.text_width d.hostname) in
        let height = screen.text_height d.hostname in
        let up = λ (p : S). num.div (num.mul p height) (int 2) in
        let flipped = num.lt (num.div num.pi (int 2)) (num.abs angle) in
        (if flipped
          then PixiCall.set_position d.text (num.add (num.mul dv.x far) (up perp.x))
              (num.add (num.mul dv.y far) (up perp.y))
          else PixiCall.set_position d.text (num.sub (num.mul dv.x offset) (up perp.x))
              (num.sub (num.mul dv.y offset) (up perp.y)))
        ∷ PixiCall.set_rotation d.text (if flipped then num.add angle num.pi else angle)
        ∷ []

    -- The first neighbour is read for every device but a super node; without one, a TypeError.
    unfoldable pub name_calls :
        Config S → Dict (Device S) → Bool → Device S → Option (List (PixiCall S))
    unfolding above_calls beside_calls
    name_calls config devices large d =
        if not large || not (is_super_node d)
        then elim d.neighbor_devices [
          | [] ↦ none
          | n ∷ _ ↦ elim (get n devices) [
            | none ↦ none
            | some nbr ↦ some (beside_calls config large d nbr.position)
          ]
        ]
        else some (above_calls config d)

  unfoldable pub draw_effects : List (Effect S) → World S → World S × List (Effect S)
  draw_effects [] w = (w, [])
  draw_effects (e ∷ rest) w =
      let (w', e') = Effect.update_graphics e w in
      let (w'', rest') = draw_effects rest w' in (w'', e' ∷ rest')

abbrev pub status_color : Option Bool → Color
status_color (some true) = some 0x00aa00
status_color (some false) = some 0xff0000
status_color none = some 0xffff00

module _ {S : Type 0} ⦃num : Double S⦄ where
  -- The square in the colour of the status; small, and with no border, for a small icon.
  square_calls : Config S → Bool → Object → Device S → List (PixiCall S)
  square_calls config large o d =
      let r = num.div config.device_icon_size (int 2) in
      let radius = if large then r else num.div r (int 4) in
      let minus = num.neg radius in
      PixiCall.clear o
      ∷ PixiCall.begin_fill o (status_color d.status)
      ∷ PixiCall.line_style o (if large then 2 else 0) 0x777777
      ∷ PixiCall.move_to o minus minus
      ∷ PixiCall.line_to o minus radius
      ∷ PixiCall.line_to o radius radius
      ∷ PixiCall.line_to o radius minus
      ∷ PixiCall.line_to o minus minus
      ∷ PixiCall.end_fill o
      ∷ PixiCall.set_position o d.position.x d.position.y
      ∷ []

  unfoldable pub draw_square : Config S → Bool → World S → Device S → World S × Device S
  unfolding square_calls
  draw_square config large w d =
      if d.graphics_dirty
      then elim d.graphics [
        | none ↦ (w, d)
        | some g ↦
            (emit (square_calls config large g.object d) w, record d { graphics_dirty = false })
      ]
      else (w, d)

module _ {S : Type 0} ⦃num : Double S⦄ ⦃vic : Victor S⦄ where
  -- The loop over the link groups. A group whose neighbour is not on the map throws a TypeError:
  -- `devices[key]` is undefined there.
  unfoldable pub draw_groups :
      Config S
      → ℕ
      → Dict (Device S)
      → Bool
      → List (String × LinkGroup S)
      → World S
      → Device S
      → Outcome (World S × Device S)
  draw_groups config now devices large [] w d = done (w, d)
  draw_groups config now devices large ((key, value) ∷ rest) w d = elim (get key devices) [
    | none ↦ threw (w, d)
    | some nbr ↦ elim (if large then is_large_icon devices nbr else some false) [
      | none ↦ threw (w, d)
      | some large_link ↦
          let (w', g) =
            Draw.update_graphics config now link_layer d.position nbr.position large_link w value in
          draw_groups config now devices large rest w'
            (record d { link_groups = put key g d.link_groups })
    ]
  ]

  unfoldable pub draw_body :
      ⦃screen : Screen S⦄
      → Config S
      → ℕ
      → Dict (Device S)
      → Bool
      → List (PixiCall S)
      → World S
      → Device S
      → Outcome (World S × Device S)
  unfolding draw_effects draw_square draw_groups
  draw_body config now devices large name w d =
      let (w', effects) = draw_effects d.attached_effects (emit name w) in
      let (w'', d') = draw_square config large w' (record d { attached_effects = effects }) in
      draw_groups config now devices large d'.link_groups w'' d'

  unfoldable pub update_graphics :
      ⦃screen : Screen S⦄
      → Config S
      → ℕ
      → Dict (Device S)
      → World S
      → Device S
      → Outcome (World S × Device S)
  unfolding draw_body ensure_graphics name_calls
  update_graphics config now devices w d = elim (is_large_icon devices d) [
    | none ↦ threw (w, d)
    | some large ↦
        let (w', d') = ensure_graphics config w d in
        elim (name_calls config devices large d') [
          | none ↦ threw (w', d')
          | some name ↦ draw_body config now devices large name w' d'
        ]
  ]
