-- ===== src/Weathermap/Util/Hex.antt =====
-- The colours of weathermap/js/util.js as texts of hexadecimal digits.
use jaspy.Prelude.{
  ℕ, zero, suc, ◌+◌, ◌*◌, ◌/◌, ◌%◌, ◌<◌, ◌≡◌, refl, some, pos, [], ◌∷◌, ◌++◌, arith, dec_lt, ◌≤◌,
  ap, ◌∙◌,
}
use jaspy.Weathermap.Numbers.{Double}
use jaspy.Weathermap.Util.{
  hex_digit, hex_digits, to_string16, pad_hex, hex_value, parse_digits, parse_hex, component_to_hex,
  rgb_to_hex,
}

hex_value-hex_digit : (d : ℕ) → d < 16 → hex_value (hex_digit d) ≡ some d
unfolding hex_value hex_digit
hex_value-hex_digit d h = ground arith

one_digit : (f n : ℕ) → n < 16 → hex_digits (suc f) n ≡ hex_digit n ∷ []
unfolding hex_digits
one_digit f n h = ground arith

more_digits :
    (f n : ℕ) → 16 ≤ n → hex_digits (suc f) n ≡ hex_digits f (n / 16) ++ hex_digit (n % 16) ∷ []
unfolding hex_digits
more_digits f n h = ground arith

pad_small :
    (n : ℕ) → n < 16 → pad_hex (hex_digit n ∷ []) ≡ hex_digit (n / 16) ∷ hex_digit (n % 16) ∷ []
unfolding pad_hex hex_digit
pad_small n h = let q : n / 16 ≡ 0 = omega arith in let r : n % 16 ≡ n = omega arith in rw (q, r)

pad_large :
    (n : ℕ)
    → 16 ≤ n
    → n < 256
    → pad_hex (hex_digits n (n / 16) ++ hex_digit (n % 16) ∷ [])
      ≡ hex_digit (n / 16) ∷ hex_digit (n % 16) ∷ []
unfolding pad_hex
pad_large zero l h = absurd (omega arith)
pad_large (suc m) l h = rw (one_digit m (suc m / 16) (omega arith))

-- A component is written with exactly two digits.
two_digits :
    (n : ℕ)
    → n < 256
    → pad_hex (hex_digits (suc n) n) ≡ hex_digit (n / 16) ∷ hex_digit (n % 16) ∷ []
two_digits n h = elim (dec_lt n 16) [
  | yes p ↦ rw (one_digit n n p) (pad_small n p)
  | no p ↦ rw (more_digits n n (omega arith)) (pad_large n (omega arith) h)
]

-- Reading the six digits of three bytes gives the number that the bytes make up.
parse_hex-digits :
    (a b c d e f : ℕ)
    → a < 16
    → b < 16
    → c < 16
    → d < 16
    → e < 16
    → f < 16
    → parse_hex
        (hex_digit a ∷ hex_digit b ∷ hex_digit c ∷ hex_digit d ∷ hex_digit e ∷ hex_digit f ∷ [])
      ≡ some (((((a * 16 + b) * 16 + c) * 16 + d) * 16 + e) * 16 + f)
unfolding parse_hex parse_digits
parse_hex-digits a b c d e f ha hb hc hd he hf =
    rw (hex_value-hex_digit a ha, parse_hex)
      (rw (hex_value-hex_digit b hb, parse_digits)
        (rw (hex_value-hex_digit c hc, parse_digits)
          (rw (hex_value-hex_digit d hd, parse_digits)
            (rw (hex_value-hex_digit e he, parse_digits)
              (rw (hex_value-hex_digit f hf, parse_digits) refl)))))

module _ {S : Type 0} ⦃num : Double S⦄ where
  component :
      (c : S) (n : ℕ)
      → num.round_int c ≡ some (pos n)
      → n < 256
      → component_to_hex c ≡ hex_digit (n / 16) ∷ hex_digit (n % 16) ∷ []
  unfolding component_to_hex to_string16
  component c n e h = rw e (two_digits n h)

  -- Three components that round to bytes are written so that parsing them gives the colour whose
  -- bytes they are.
  pub parse_hex-rgb_to_hex :
      (r g b : S) (i j k : ℕ)
      → num.round_int r ≡ some (pos i)
      → num.round_int g ≡ some (pos j)
      → num.round_int b ≡ some (pos k)
      → i < 256
      → j < 256
      → k < 256
      → parse_hex (rgb_to_hex r g b) ≡ some (i * 65536 + j * 256 + k)
  unfolding rgb_to_hex
  parse_hex-rgb_to_hex r g b i j k er eg eb hi hj hk =
      rw (component r i er hi, component g j eg hj, component b k eb hk)
        (parse_hex-digits _ _ _ _ _ _ (omega arith) (omega arith) (omega arith) (omega arith)
            (omega arith) (omega arith)
          ∙ ap some (omega arith))
