-- ===== src/Weathermap/Device/Fading.antt =====
-- weathermap/js/effects: the texts over a device under `effectAnimation`.
use jaspy.Prelude.{
  ℕ, zero, suc, ◌*◌, ◌≤◌, Bool, true, false, List, [], ◌∷◌, ◌≡◌, refl, arith, All, if◌then◌else◌,
}
use jaspy.Weathermap.Numbers.{Double}
use jaspy.Weathermap.World.{World, request_updates}
use jaspy.Weathermap.Effect
use jaspy.Weathermap.Effect.{Effect, TextEffect, focus_effect, text_effect, fade}
use jaspy.Weathermap.Device.{Device}
use jaspy.Weathermap.Device.Animation.{step_effects, effect_animation}

module _ {S : Type 0} where
  -- A text that `n` more frames make invisible.
  abbrev pub FadesIn : ℕ → Effect S → Type 0
  FadesIn n (focus_effect e) = ⊥
  FadesIn n (text_effect e) = e.alpha ≤ n * e.alpha_rate

module _ {S : Type 0} ⦃num : Double S⦄ where
  -- So many calls of `effectAnimation`.
  unfoldable pub effect_frames : ℕ → World S × Device S → World S × Device S
  effect_frames zero s = s
  effect_frames (suc n) s = effect_frames n (effect_animation s.0 s.1)

  All-if :
      (n : ℕ) (b : Bool) (xs ys : List (Effect S))
      → All (FadesIn n) xs
      → All (FadesIn n) ys
      → All (FadesIn n) (if b then xs else ys)
  All-if n true xs ys hx hy = hx
  All-if n false xs ys hx hy = hy

  fade-FadesIn :
      (n : ℕ) (e : TextEffect S)
      → FadesIn (suc n) (text_effect e)
      → FadesIn n (text_effect (fade e))
  unfolding fade
  fade-FadesIn n e h = ground arith

  step_effects-FadesIn :
      (n : ℕ) (es : List (Effect S)) (w : World S)
      → All (FadesIn (suc n)) es
      → All (FadesIn n) (step_effects es w).1
  unfolding step_effects Effect.update_animation
  step_effects-FadesIn n [] w h = tt
  step_effects-FadesIn n (focus_effect e ∷ rest) w h = absurd h.0
  step_effects-FadesIn n (text_effect e ∷ rest) w h =
      let w' =
        if Effect.finished (text_effect e)
        then Effect.destroy (text_effect e) w
        else request_updates w in
      let ih = step_effects-FadesIn n rest w' h.1 in
      All-if n (Effect.finished (text_effect e)) _ _ ih (fade-FadesIn n e h.0, ih)

  step_effects-done :
      (es : List (Effect S)) (w : World S) → All (FadesIn 0) es → (step_effects es w).1 ≡ []
  unfolding step_effects
  step_effects-done [] w h = refl
  step_effects-done (focus_effect e ∷ rest) w h = absurd h.0
  step_effects-done (text_effect e ∷ rest) w h =
      let gone : Effect.finished (text_effect e) ≡ true = unfold Effect.finished in ground arith in
      rw gone (step_effects-done rest (Effect.destroy (text_effect e) w) h.1)

  -- Where all effects over a device are texts that fade within n frames, none is left after n + 1
  -- frames.
  pub effect_frames-FadesIn :
      (n : ℕ) (w : World S) (d : Device S)
      → All (FadesIn n) d.attached_effects
      → (effect_frames (suc n) (w, d)).1.attached_effects ≡ []
  unfolding effect_frames effect_animation
  effect_frames-FadesIn zero w d h = step_effects-done d.attached_effects w h
  effect_frames-FadesIn (suc n) w d h =
      effect_frames-FadesIn n (effect_animation w d).0 (effect_animation w d).1
        (step_effects-FadesIn n d.attached_effects w h)
