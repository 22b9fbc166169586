-- ===== src/Weathermap/Util.antt =====
-- weathermap/js/util.js: host names and the colour of a link. A text that is built and parsed is a
-- list of character codes.
pub mod Hex
pub mod Hostname
use Prim.Native.Char.{code}
use jaspy.Prelude.{
  ℕ, zero, suc, ◌+◌, ◌-◌, ◌*◌, ◌/◌, ◌%◌, String, ◌==◌, if◌then◌else◌, ltb, leb, ◌&&◌, ◌||◌, Option,
  none, some, ℤ, pos, negsuc, List, [], ◌∷◌, ◌++◌, length,
}
use jaspy.Weathermap.Numbers.{Double, int}
use jaspy.Weathermap.World.{Color}

-- `fqdn.split('.', 2)[0]`: all before the first dot.
unfoldable pub hostname_from_fqdn : String → String
hostname_from_fqdn String.[] = String.[]
hostname_from_fqdn (String.◌∷◌ c s) =
    let rest = String.◌∷◌ c (hostname_from_fqdn s) in if code c == b'.' then String.[] else rest

-- `toString(16)` of a natural number, with a digit for each round of fuel.
hex_digit : ℕ → ℕ
hex_digit d = if ltb d 10 then b'0' + d else b'a' + d - 10

hex_digits : ℕ → ℕ → List ℕ
unfolding hex_digit
hex_digits zero n = []
hex_digits (suc fuel) n =
    let more = hex_digits fuel (n / 16) ++ hex_digit (n % 16) ∷ [] in
    if ltb n 16 then hex_digit n ∷ [] else more

-- `none` stands for NaN and the infinities; neither they nor a sign begin with a digit.
to_string16 : Option ℤ → List ℕ
unfolding hex_digits
to_string16 none = b'N' ∷ b'a' ∷ b'N' ∷ []
to_string16 (some (pos n)) = hex_digits (suc n) n
to_string16 (some (negsuc n)) = b'-' ∷ hex_digits (suc (suc n)) (suc n)

pad_hex : List ℕ → List ℕ
pad_hex hex = if length hex == 1 then b'0' ∷ hex else hex

hex_value : ℕ → Option ℕ
hex_value c =
    if leb b'0' c && leb c b'9'
    then some (c - b'0')
    else if leb b'a' c && leb c b'f'
    then some (c - b'a' + 10)
    else if leb b'A' c && leb c b'F'
    then some (c - b'A' + 10)
    else none

-- The digits of `parseInt(_, 16)` up to the first character that is none, after the value `acc`.
parse_digits : ℕ → List ℕ → ℕ
unfolding hex_value
parse_digits acc [] = acc
parse_digits acc (c ∷ cs) = elim (hex_value c) [
  | none ↦ acc
  | some d ↦ parse_digits (acc * 16 + d) cs
]

-- `parseInt(_, 16)` behind the prefix "0x": NaN if no digit follows.
pub parse_hex : List ℕ → Option ℕ
unfolding hex_value parse_digits
parse_hex [] = none
parse_hex (c ∷ cs) = elim (hex_value c) [ none ↦ none | some d ↦ some (parse_digits d cs) ]

abbrev pub Rgb : Type 0 → Type 0
Rgb S = S × S × S

-- The case of the `switch` that `i % 6` takes, 6 for none: the remainder has the sign of `i`.
sextant : Option ℤ → ℕ
sextant none = 6
sextant (some (pos n)) = n % 6
sextant (some (negsuc n)) = if suc n % 6 == 0 then 0 else 6

module _ {S : Type 0} ⦃num : Double S⦄ where
  component_to_hex : S → List ℕ
  unfolding to_string16 pad_hex
  component_to_hex c = pad_hex (to_string16 (num.round_int c))

  -- Without the prefix "0x", which `parse_hex` would skip.
  pub rgb_to_hex : S → S → S → List ℕ
  unfolding component_to_hex
  rgb_to_hex r g b = component_to_hex r ++ (component_to_hex g ++ component_to_hex b)

  hsv_case : ℕ → S → S → S → S → Rgb S
  hsv_case zero v p q t = (v, t, p)
  hsv_case (suc zero) v p q t = (q, v, p)
  hsv_case (suc (suc zero)) v p q t = (p, v, t)
  hsv_case (suc (suc (suc zero))) v p q t = (p, q, v)
  hsv_case (suc (suc (suc (suc zero)))) v p q t = (t, p, v)
  hsv_case (suc (suc (suc (suc (suc zero))))) v p q t = (v, p, q)
  hsv_case (suc (suc (suc (suc (suc (suc n)))))) v p q t = (num.nan, num.nan, num.nan)

  abbrev floor_double : S → S
  floor_double x = elim (num.floor_int x) [ none ↦ num.nan | some i ↦ num.of_int i ]

  unfoldable pub hsv_to_rgb : S → S → S → Rgb S
  unfolding sextant hsv_case
  hsv_to_rgb h s v =
      let f = num.sub (num.mul h (int 6)) (floor_double (num.mul h (int 6))) in
      let p = num.mul v (num.sub (int 1) s) in
      let q = num.mul v (num.sub (int 1) (num.mul f s)) in
      let t = num.mul v (num.sub (int 1) (num.mul (num.sub (int 1) f) s)) in
      let (r, g, b) = hsv_case (sextant (num.floor_int (num.mul h (int 6)))) v p q t in
      (num.mul r (int 255), num.mul g (int 255), num.mul b (int 255))

  -- The share of the link that is used, as a hue from blue to red.
  unfoldable pub link_hue : S → S → S
  link_hue used total =
      let vars = num.div (num.min used total) total in
      num.sub (num.div (int 2) (int 3)) (num.div (num.mul vars (int 2)) (int 3))

  unfoldable pub get_link_color : S → S → Color
  unfolding rgb_to_hex hsv_to_rgb parse_hex link_hue
  get_link_color used total =
      let (r, g, b) = hsv_to_rgb (link_hue used total) (int 1) (int 1) in
      parse_hex (rgb_to_hex r g b)
