-- ===== src/Weathermap/Effect.antt =====
-- weathermap/js/effects: a shrinking circle and a fading text over a device.
use jaspy.Prelude.{ℕ, ◌-◌, Bool, true, false, String, Option, none, some, if◌then◌else◌, leb, ltb}
use jaspy.Weathermap.Numbers.{Double, Screen, Vec, int}
use jaspy.Weathermap.World.{World, GraphicsInfo, Object, PixiCall, call, ensure, new_text, detach}

pub record FocusEffect (S : Type 0) : Type 0 where
  pub radius : S
  pub color : ℕ
  pub attached_to : Object
  pub graphics_dirty : Bool
  pub graphics : Option GraphicsInfo

-- `alpha` and `alphaRate` are integers in every call, and `alpha` is never below 0 between calls.
pub record TextEffect (S : Type 0) : Type 0 where
  pub offset : Vec S
  pub text : String
  pub color : ℕ
  pub attached_to : Object
  pub graphics_dirty : Bool
  pub graphics : Option GraphicsInfo
  pub alpha : ℕ
  pub alpha_rate : ℕ

pub data Effect (S : Type 0) : Type 0 where
  focus_effect : FocusEffect S → Effect S
  text_effect : TextEffect S → Effect S

module _ {S : Type 0} where
  unfoldable pub new_focus : S → ℕ → Object → FocusEffect S
  new_focus radius color attached_to = record {
    radius = radius;
    color = color;
    attached_to = attached_to;
    graphics_dirty = true;
    graphics = none;
  }

  unfoldable pub new_text_effect : Vec S → String → ℕ → Object → ℕ → TextEffect S
  new_text_effect offset text color attached_to alpha_rate = record {
    offset = offset;
    text = text;
    color = color;
    attached_to = attached_to;
    graphics_dirty = true;
    graphics = none;
    alpha = 255;
    alpha_rate = alpha_rate;
  }

  -- `alpha -= alphaRate`, then 0 where that is negative: the subtraction of ℕ.
  unfoldable pub fade : TextEffect S → TextEffect S
  fade e = record e {
    alpha = if ltb 0 e.alpha then e.alpha - e.alpha_rate else e.alpha;
    graphics_dirty = true;
  }

module _ {S : Type 0} ⦃num : Double S⦄ where
  unfoldable pub shrink : FocusEffect S → FocusEffect S
  shrink e =
      let r = num.mul e.radius (num.ratio 19 20) in
      record e { radius = if num.lt r (int 1) then int 0 else r; graphics_dirty = true }

  unfoldable pub update_animation : Effect S → Effect S
  unfolding shrink fade
  update_animation (focus_effect e) = focus_effect (shrink e)
  update_animation (text_effect e) = text_effect (fade e)

  unfoldable pub finished : Effect S → Bool
  finished (focus_effect e) = num.le e.radius (int 0)
  finished (text_effect e) = leb e.alpha 0

  unfoldable pub destroy : Effect S → World S → World S
  destroy (focus_effect e) w = detach e.graphics w
  destroy (text_effect e) w = detach e.graphics w

  unfoldable pub draw_focus : FocusEffect S → World S → World S × FocusEffect S
  unfolding ensure
  draw_focus e w =
      let (w', g) = ensure e.attached_to e.graphics w in
      (
        call (PixiCall.draw_circle g.object e.radius) (
            call (PixiCall.begin_fill g.object (some e.color)) (call (PixiCall.clear g.object) w')),
        record e { graphics = some g; graphics_dirty = false },
      )

  module _ ⦃screen : Screen S⦄ where
    ensure_text : TextEffect S → World S → World S × GraphicsInfo
    ensure_text e w = elim e.graphics [
      | some g ↦ (w, g)
      | none ↦
          let (w', object) = new_text e.text w in
          let y = num.add e.offset.y (num.div (screen.text_height e.text) (int 2)) in
          (
            call (PixiCall.add_child e.attached_to object)
                (call (PixiCall.set_position object e.offset.x y) w'),
            record { object = object; attached_to = e.attached_to },
          )
    ]

    unfoldable pub draw_text : TextEffect S → World S → World S × TextEffect S
    unfolding ensure_text
    draw_text e w =
        let (w', g) = ensure_text e w in
        (
          call (PixiCall.set_alpha g.object (num.div (int e.alpha) (int 255))) w',
          record e { graphics = some g; graphics_dirty = false },
        )

    unfoldable pub update_graphics : Effect S → World S → World S × Effect S
    unfolding draw_focus draw_text
    update_graphics (focus_effect e) w = let (w', e') = draw_focus e w in (w', focus_effect e')
    update_graphics (text_effect e) w = let (w', e') = draw_text e w in (w', text_effect e')
