-- ===== src/Webui/DeviceDetail/Rows/Marked.antt =====
-- The marks of the rows and the badges of an interface.
use jaspy.Prelude.{
  ℕ, ◌+◌, Bool, true, false, not, ◌||◌, List, [], ◌∷◌, ◌≡◌, refl, ap, sym, ◌∙◌, ltb, is_some, arith,
}
use jaspy.Webui.Platform.{Platform}
use jaspy.Webui.DeviceTypes.{Interface, InterfaceHealth}
use jaspy.Webui.DeviceDetail.Health.{other_signal, interface_health_badges}
use jaspy.Webui.DeviceDetail.Rows.{Row, Tone, warn_text, bad_text, tone_if, health_rows}

-- Whether a row is marked.
abbrev pub any_marked : List Row → Bool
any_marked [] = false
any_marked (r ∷ rows) = is_some r.cls || any_marked rows

abbrev pub is_empty : {A : Type 0} → List A → Bool
is_empty [] = true
is_empty (x ∷ xs) = false

-- The mark of a row before those of the rest.
mark-step :
    (b : Bool) (t : Tone) {rest rest' : Bool}
    → rest ≡ rest'
    → (is_some (tone_if b t) || rest) ≡ (b || rest')
mark-step true t e = refl
mark-step false t e = e

mark-one : (b : Bool) (t : Tone) → (is_some (tone_if b t) || false) ≡ b
mark-one true t = refl
mark-one false t = refl

ltb-add : (a b : ℕ) → ltb 0 (a + b) ≡ (ltb 0 a || ltb 0 b)
ltb-add a b = ground arith

-- The order in which the signals stand.
reorder :
    (d i o f s u t : Bool)
    → (d || (i || (o || (f || (s || (u || t)))))) ≡ (d || (f || (t || (u || (s || (i || o))))))
reorder true i o f s u t = refl
reorder false true o f s u t = ground arith
reorder false false true f s u t = ground arith
reorder false false false f s u t = ground arith

any_marked-health_rows :
    (platform : Platform) (iface : Interface) (h : InterfaceHealth)
    → any_marked (health_rows platform iface h) ≡ (h.discards_high || other_signal h)
unfolding health_rows other_signal
any_marked-health_rows platform iface h =
    mark-step h.discards_high warn_text (
      mark-step (ltb 0 h.in_errors) warn_text (
        mark-step (ltb 0 h.out_errors) warn_text (
          mark-step h.flapping bad_text (
            mark-step (ltb 0 h.speed_change_count) warn_text
              (mark-step h.high_utilization warn_text (mark-one h.stale bad_text))))))
    ∙ reorder h.discards_high (ltb 0 h.in_errors) (ltb 0 h.out_errors) h.flapping
        (ltb 0 h.speed_change_count) h.high_utilization h.stale
    ∙ ap
        (λ e.
          h.discards_high
          || (h.flapping || (h.stale || (h.high_utilization || (ltb 0 h.speed_change_count || e)))))
        (sym (ltb-add h.in_errors h.out_errors))

badges-empty :
    (h : InterfaceHealth)
    → is_some h.severity ≡ true
    → is_empty (interface_health_badges h) ≡ not (h.discards_high || other_signal h)
unfolding interface_health_badges
badges-empty h e = ground arith

-- An interface with a severity has no badge exactly when none of the health rows of its detail is
-- marked.
pub badges-marked :
    (platform : Platform) (iface : Interface) (h : InterfaceHealth)
    → is_some h.severity ≡ true
    → is_empty (interface_health_badges h) ≡ not (any_marked (health_rows platform iface h))
badges-marked platform iface h e =
    badges-empty h e ∙ ap not (sym (any_marked-health_rows platform iface h))
