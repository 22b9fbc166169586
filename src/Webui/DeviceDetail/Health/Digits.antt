-- ===== src/Webui/DeviceDetail/Health/Digits.antt =====
-- How a text of digits is grouped.
use Prim.Native.Char.{Char, code}
use jaspy.Prelude.{
  ℕ, ◌+◌, ◌-◌, ◌%◌, ◌≤◌, false, String, List, [], ◌∷◌, ◌≡◌, ◌≢◌, refl, ap, ◌∙◌, All, str_eq,
  str_append, ◌==◌, arith, eq_iff, Bool-cases, inl, inr,
}
use jaspy.Webui.Text.{split}
use jaspy.Webui.Text.Split.{has_char, append_nil, append_cons, split_cons, split_first, split_one}
use jaspy.Webui.DeviceDetail.Health.{group_digits, text_length}

abbrev pub comma : Char
comma = ","

-- The parts one behind the other.
abbrev pub concat : List String → String
concat [] = ""
concat (part ∷ parts) = str_append part (concat parts)

-- The parts of a text of a given length: three characters each, but for the first.
abbrev pub InThrees : ℕ → List String → Type 0
InThrees n [] = ⊥
InThrees n (part ∷ parts) =
    (text_length part ≡ (n - 1) % 3 + 1) × All (λ p. text_length p ≡ 3) parts

abbrev IsGrouped : String → Type 0
IsGrouped s =
    let parts = split comma (group_digits s) in (concat parts ≡ s) × InThrees (text_length s) parts

split-comma : (s : String) → split comma (str_append "," s) ≡ "" ∷ split comma s
unfolding split
split-comma s = ap (split comma) (append_cons comma "" s ∙ ap (String.◌∷◌ comma) (append_nil s))

-- One more digit in front, with a comma behind it where the rest is a number of threes.
module _ (c : Char) (s : String) (other : code c == code comma ≡ false) (grouped : IsGrouped s)
    (some_digits : 1 ≤ text_length s) where
  with_comma :
      text_length s % 3 ≡ 0
      → let parts = split comma (String.◌∷◌ c (str_append "," (group_digits s))) in
        (concat parts ≡ String.◌∷◌ c s) × InThrees (text_length (String.◌∷◌ c s)) parts
  with_comma threes =
      let g = group_digits s in
      let (p, ps, e) = split_cons comma g in
      let before = rw e at grouped in
      rw (split_first comma c (str_append "," g) other "" (split comma g) (split-comma g), e)
        (
          append_cons c "" (concat (p ∷ ps))
              ∙ ap (String.◌∷◌ c) (append_nil (concat (p ∷ ps)) ∙ before.0),
          (omega arith, (omega (arith, before.1.0), before.1.1)),
        )

  without_comma :
      text_length s % 3 ≢ 0
      → let parts = split comma (String.◌∷◌ c (group_digits s)) in
        (concat parts ≡ String.◌∷◌ c s) × InThrees (text_length (String.◌∷◌ c s)) parts
  without_comma more =
      let g = group_digits s in
      let (p, ps, e) = split_cons comma g in
      let before = rw e at grouped in
      rw (split_first comma c g other p ps e) (
        append_cons c p (concat ps) ∙ ap (String.◌∷◌ c) before.0,
        (omega (arith, before.1.0), before.1.1),
      )

str_eq-cons : (c : Char) (s : String) → str_eq (String.◌∷◌ c s) "" ≡ false
str_eq-cons c s = elim (Bool-cases (str_eq (String.◌∷◌ c s) "")) [
  | inl e ↦ absurd (omega (arith, ap text_length ((eq_iff (String.◌∷◌ c s) "").0 e)))
  | inr e ↦ e
]

group_digits-IsGrouped :
    (c : Char) (s : String) → has_char comma (String.◌∷◌ c s) ≡ false → IsGrouped (String.◌∷◌ c s)
unfolding group_digits has_char
group_digits-IsGrouped c String.[] h =
    let single = split_one comma (String.◌∷◌ c String.[]) h in
    rw single (append_cons c "" "" ∙ ap (String.◌∷◌ c) (append_nil ""), (omega arith, tt))
group_digits-IsGrouped c (String.◌∷◌ d s) h =
    let other : code c == code comma ≡ false = ground (arith, h) in
    let rest : has_char comma (String.◌∷◌ d s) ≡ false = ground (arith, h) in
    let grouped = group_digits-IsGrouped d s rest in
    elim (Bool-cases (text_length (String.◌∷◌ d s) % 3 == 0)) [
      | inl e ↦
          rw (str_eq-cons d s, e)
            (with_comma c (String.◌∷◌ d s) other grouped (omega arith) (ground (arith, e)))
      | inr e ↦
          rw (str_eq-cons d s, e)
            (without_comma c (String.◌∷◌ d s) other grouped (omega arith) (ground (arith, e)))
    ]

-- For a text that is not empty and has no commas, the parts between the commas of the grouped text
-- make up the text, and each but the first has three characters, the first one to three.
pub group_digits-parts :
    (s : String)
    → s ≢ ""
    → has_char comma s ≡ false
    → let parts = split comma (group_digits s) in
      (concat parts ≡ s) × InThrees (text_length s) parts
group_digits-parts String.[] some_digit h = absurd (some_digit refl)
group_digits-parts (String.◌∷◌ c s) some_digit h = group_digits-IsGrouped c s h
