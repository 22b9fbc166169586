-- ===== src/Webui/DeviceDetail/Health/Explained.antt =====
-- Badges and lines: what a badge of an interface warns of is written in its detail row.
use jaspy.Prelude.{
  ◌+◌, ◌<◌, Bool, true, false, String, List, [], ◌∷◌, ◌++◌, ◌≡◌, refl, ltb, is_some, arith,
  Option-cases, inl, inr,
}
use jaspy.Webui.Platform.{Platform}
use jaspy.Webui.DeviceTypes.{InterfaceHealth}
use jaspy.Webui.DeviceDetail.Health.{
  line_if, speed_line, utilization_line, health_lines, interface_health_badges,
}

-- What the server reports together: a threshold is above zero, and the last change of speed and the
-- peak are there where they are counted.
pub record Consistent (h : InterfaceHealth) : Type 0 where
  pub discards_counted : h.discards_high ≡ true → 0 < h.discards
  pub change_known : 0 < h.speed_change_count → is_some h.last_speed_change ≡ true
  pub peak_known : h.high_utilization ≡ true → is_some h.peak_utilization_pct ≡ true

append-eq-nil : {A : Type 0} (xs ys : List A) → xs ++ ys ≡ [] → (xs ≡ []) × (ys ≡ [])
append-eq-nil [] ys e = (refl, e)
append-eq-nil (x ∷ xs) ys e = cc e

line_if-eq-nil :
    (platform : Platform) (b : Bool) (parts : List String)
    → line_if platform b parts ≡ []
    → b ≡ false
unfolding line_if
line_if-eq-nil platform true parts e = cc e
line_if-eq-nil platform false parts e = refl

module _ (platform : Platform) (h : InterfaceHealth) (known : Consistent h) where
  speed_line-eq-nil : speed_line platform h ≡ [] → ltb 0 h.speed_change_count ≡ false
  unfolding speed_line
  speed_line-eq-nil e = elim (Option-cases h.last_speed_change) [
    | inl absent ↦ ground (arith, known.change_known)
    | inr ((from, to), there) ↦ line_if-eq-nil platform _ _ (rw (speed_line, there) at e)
  ]

  utilization_line-eq-nil : utilization_line platform h ≡ [] → h.high_utilization ≡ false
  unfolding utilization_line
  utilization_line-eq-nil e = elim (Option-cases h.peak_utilization_pct) [
    | inl absent ↦ ground (arith, known.peak_known)
    | inr (pct, there) ↦ line_if-eq-nil platform _ _ (rw (utilization_line, there) at e)
  ]

  -- Where a high number of discards is above zero, a counted change of speed is known and a high
  -- utilization has a peak, an interface without a line that explains its health has no badge.
  pub no_line-no_badge : health_lines platform h ≡ [] → interface_health_badges h ≡ []
  unfolding health_lines interface_health_badges
  no_line-no_badge e =
      let (stale, e₁) = append-eq-nil _ _ e in
      let (flap, e₂) = append-eq-nil _ _ e₁ in
      let (discard, e₃) = append-eq-nil _ _ e₂ in
      let (error, e₄) = append-eq-nil _ _ e₃ in
      let (speed, utilization) = append-eq-nil _ _ e₄ in
      ground (
        arith,
        line_if-eq-nil platform h.stale _ stale,
        line_if-eq-nil platform h.flapping _ flap,
        line_if-eq-nil platform (ltb 0 h.discards) _ discard,
        line_if-eq-nil platform (ltb 0 (h.in_errors + h.out_errors)) _ error,
        speed_line-eq-nil speed,
        utilization_line-eq-nil utilization,
        known.discards_counted,
      )
