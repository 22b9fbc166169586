-- ===== src/Weathermap/Numbers.antt =====
-- What the map does with numbers and vectors that the kernel cannot compute: the operations of
-- JavaScript's doubles, and those of the vendored library weathermap/js/victor.js. Both are
-- interfaces; the definitions that use them take an instance.
use Prim.Native.Char.{code}
use jaspy.Prelude.{
  ℕ, zero, suc, ◌+◌, ◌-◌, ◌*◌, Bool, ◌&&◌, Option, none, some, String, ℤ, pos, negsuc, leb, ◌==◌,
  if◌then◌else◌,
}

pub record Double (S : Type 0) : Type 0 where
  -- The double nearest to n / d.
  pub ratio : ℕ → ℕ → S
  pub of_int : ℤ → S
  pub nan : S
  pub pi : S
  pub add : S → S → S
  pub sub : S → S → S
  pub mul : S → S → S
  pub div : S → S → S
  pub neg : S → S
  pub pow : S → S → S
  pub log10 : S → S
  pub acos : S → S
  pub sign : S → S
  pub abs : S → S
  pub min : S → S → S
  -- `a < b`, `a <= b` and `a == b`, all false at NaN.
  pub lt : S → S → Bool
  pub le : S → S → Bool
  pub eq : S → S → Bool
  -- Whether an `if` on the number is taken: neither 0 nor NaN.
  pub truthy : S → Bool
  -- `Math.round` and `Math.floor` as integers, `none` at NaN and the infinities.
  pub round_int : S → Option ℤ
  pub floor_int : S → Option ℤ
  pub round : S → S
  -- `toFixed(2)`
  pub to_fixed2 : S → String

-- A `Victor` object is a pair of coordinates. What its methods compute is the library's: `Victor`
-- is the interface to them. The map clones a vector before each call that writes to it, or owns
-- it, so the calls are functions.
pub record Vec (S : Type 0) : Type 0 where
  pub x : S
  pub y : S

pub record Victor (S : Type 0) : Type 0 where
  pub add : Vec S → Vec S → Vec S
  pub subtract : Vec S → Vec S → Vec S
  pub multiply : Vec S → Vec S → Vec S
  pub normalize : Vec S → Vec S
  pub rotate_deg : Vec S → S → Vec S
  pub invert : Vec S → Vec S
  pub dot : Vec S → Vec S → S
  pub cross : Vec S → Vec S → S
  pub length : Vec S → S
  pub horizontal_angle : Vec S → S

-- What pixi.js says of the screen: the size of a drawn text, and the point of the map that lies
-- under a point of the window.
pub record Screen (S : Type 0) : Type 0 where
  pub text_width : String → S
  pub text_height : String → S
  pub to_world : Vec S → Vec S

-- `new Victor(x, y)`
abbrev pub vec : {S : Type 0} → S → S → Vec S
vec x y = record { x = x; y = y }

module _ {S : Type 0} ⦃num : Double S⦄ where
  abbrev pub int : ℕ → S
  int n = num.ratio n 1

  -- `null` in arithmetic is 0.
  abbrev pub or_zero : Option S → S
  or_zero o = elim o [ none ↦ num.ratio 0 1 | some s ↦ s ]

  -- Whether two positions have equal coordinates.
  abbrev pub same_place : Vec S → Vec S → Bool
  same_place p q = num.eq p.x q.x && num.eq p.y q.y

  abbrev pub round_vec : Vec S → Vec S
  round_vec p = vec (num.round p.x) (num.round p.y)

-- `parseInt` of a decimal text, which ends at the first character that is no digit; `none` is NaN.
-- (A prefix "0x" would select base 16; no number is sent so.)
is_digit : ℕ → Bool
is_digit c = leb b'0' c && leb c b'9'

parse_digits : ℕ → String → ℕ
unfolding is_digit
parse_digits acc String.[] = acc
parse_digits acc (String.◌∷◌ c s) =
    let more = parse_digits (acc * 10 + (code c - b'0')) s in
    if is_digit (code c) then more else acc

parse_unsigned : String → Option ℕ
unfolding is_digit parse_digits
parse_unsigned String.[] = none
parse_unsigned (String.◌∷◌ c s) =
    if is_digit (code c) then some (parse_digits 0 (String.◌∷◌ c s)) else none

negate : ℕ → ℤ
negate zero = pos 0
negate (suc n) = negsuc n

unfoldable pub parse_int : String → Option ℤ
unfolding parse_unsigned negate
parse_int String.[] = none
parse_int (String.◌∷◌ c s) =
    let skip = parse_int s in
    if code c == b' '
    then skip
    else if code c == b'-'
    then elim (parse_unsigned s) [ none ↦ none | some n ↦ some (negate n) ]
    else if code c == b'+'
    then elim (parse_unsigned s) [ none ↦ none | some n ↦ some (pos n) ]
    else elim (parse_unsigned (String.◌∷◌ c s)) [ none ↦ none | some n ↦ some (pos n) ]
