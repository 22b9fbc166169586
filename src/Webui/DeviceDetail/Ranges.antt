-- ===== src/Webui/DeviceDetail/Ranges.antt =====
-- nexus/webui/src/pages/DeviceDetail.tsx: the segments of a VLAN list.
use mathlib.Core.List.{append_assoc}
use jaspy.Prelude.{
  ℕ, suc, zero, ◌+◌, ◌-◌, ◌≤◌, List, [], ◌∷◌, ◌++◌, ◌==◌, ◌≡◌, ◌≢◌, refl, arith, ap, ◌∙◌,
  Bool-cases, inl, inr,
}
use jaspy.Webui.DeviceDetail.{segments_from, segments}

-- `n` numbers from `low` on.
abbrev pub numbers : ℕ → ℕ → List ℕ
numbers low zero = []
numbers low (suc n) = low ∷ numbers (suc low) n

-- All numbers of the segments.
abbrev pub expand : List (ℕ × ℕ) → List ℕ
expand [] = []
expand ((low, high) ∷ rest) = numbers low (suc high - low) ++ expand rest

-- Segments that go up, each with a gap to the next one.
abbrev pub Apart : List (ℕ × ℕ) → Type 0
Apart [] = Unit
Apart (s ∷ []) = Unit
Apart (s ∷ t ∷ rest) = (t.0 ≢ suc s.1) × Apart (t ∷ rest)

numbers-suc : (low n : ℕ) → numbers low (suc n) ≡ numbers low n ++ ((low + n) ∷ [])
numbers-suc low zero = ap (λ x. x ∷ []) (omega arith)
numbers-suc low (suc n) =
    let one_more : suc low + n ≡ low + suc n = omega arith in
    ap (λ xs. low ∷ xs) (numbers-suc (suc low) n)
    ∙ ap (λ x. low ∷ (numbers (suc low) n ++ (x ∷ []))) one_more

expand-segments_from :
    (low high : ℕ) (vlans : List ℕ)
    → low ≤ high
    → expand (segments_from low high vlans) ≡ numbers low (suc high - low) ++ vlans
unfolding segments_from
expand-segments_from low high [] h = refl
expand-segments_from low high (v ∷ vlans) h = elim (Bool-cases (v == suc high)) [
  | inl e ↦
      let n = suc high - low in
      let longer : suc v - low ≡ suc n = ground (arith, e, h) in
      let last : low + n ≡ v = ground (arith, e, h) in
      rw e (
        expand-segments_from low v vlans (ground (arith, e, h))
        ∙ ap (λ m. numbers low m ++ vlans) longer
        ∙ ap (λ xs. xs ++ vlans) (numbers-suc low n)
        ∙ append_assoc (numbers low n) ((low + n) ∷ []) vlans
        ∙ ap (λ x. numbers low n ++ (x ∷ vlans)) last)
  | inr e ↦
      let one : suc v - v ≡ 1 = omega arith in
      rw e (
        ap (λ xs. numbers low (suc high - low) ++ xs)
          (expand-segments_from v v vlans (omega arith) ∙ ap (λ m. numbers v m ++ vlans) one))
]

segments_from-Apart :
    (low high next last : ℕ) (vlans : List ℕ)
    → next ≢ suc high
    → Apart ((low, high) ∷ segments_from next last vlans)
unfolding segments_from
segments_from-Apart low high next last [] h = (h, tt)
segments_from-Apart low high next last (v ∷ vlans) h = elim (Bool-cases (v == suc last)) [
  | inl e ↦ rw e (segments_from-Apart low high next v vlans h)
  | inr e ↦ rw e (h, segments_from-Apart next last v v vlans (ground (arith, e)))
]

tail-Apart : (s : ℕ × ℕ) (rest : List (ℕ × ℕ)) → Apart (s ∷ rest) → Apart rest
tail-Apart s [] h = tt
tail-Apart s (t ∷ rest) h = h.1

-- The segments of a VLAN list, written out, are the list, and no segment could be joined to the one
-- before it.
pub expand-segments : (vlans : List ℕ) → (expand (segments vlans) ≡ vlans) × Apart (segments vlans)
unfolding segments
expand-segments [] = (refl, tt)
expand-segments (v ∷ vlans) =
    let one : suc v - v ≡ 1 = omega arith in
    (
      expand-segments_from v v vlans (omega arith) ∙ ap (λ m. numbers v m ++ vlans) one,
      tail-Apart (v + 1, v + 1) (segments_from v v vlans)
          (segments_from-Apart (v + 1) (v + 1) v v vlans (λ e. omega (arith, e))),
    )
