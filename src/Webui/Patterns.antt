-- ===== src/Webui/Patterns.antt =====
-- The tests of texts in nexus/webui/src/pages/DeviceDetail.tsx: regular expressions that ignore the
-- case, which outside of ASCII letters changes nothing, `startsWith` and `slice`.
use Prim.Native.Char.{Char, code}
use jaspy.Prelude.{
  ℕ, zero, suc, ◌+◌, Bool, true, false, not, ◌&&◌, ◌||◌, String, if◌then◌else◌, leb, ◌==◌,
}

unfoldable pub is_digit : Char → Bool
is_digit c = leb b'0' (code c) && leb (code c) b'9'

-- The code of a character, a capital letter's as that of the small one.
unfoldable pub lower : Char → ℕ
lower c = if leb b'A' (code c) && leb (code c) b'Z' then code c + 32 else code c

-- `/^pattern/i`, for a pattern in small letters.
unfoldable pub starts_i : String → String → Bool
unfolding lower
starts_i String.[] s = true
starts_i (String.◌∷◌ p pattern) String.[] = false
starts_i (String.◌∷◌ p pattern) (String.◌∷◌ c s) = lower c == code p && starts_i pattern s

-- `/pattern/i`
unfoldable pub includes_i : String → String → Bool
unfolding starts_i
includes_i pattern String.[] = starts_i pattern String.[]
includes_i pattern (String.◌∷◌ c s) = starts_i pattern (String.◌∷◌ c s) || includes_i pattern s

unfoldable pub starts_with : String → String → Bool
starts_with String.[] s = true
starts_with (String.◌∷◌ p prefix) String.[] = false
starts_with (String.◌∷◌ p prefix) (String.◌∷◌ c s) = code c == code p && starts_with prefix s

-- `s.slice(n)`
unfoldable pub slice : ℕ → String → String
slice zero s = s
slice (suc n) String.[] = String.[]
slice (suc n) (String.◌∷◌ c s) = slice n s

digit_first : String → Bool
unfolding is_digit
digit_first String.[] = false
digit_first (String.◌∷◌ c s) = is_digit c

-- `/(?:^|[^0-9])1G(?![0-9])/i` behind a digit or not.
one_gig : Bool → String → Bool
unfolding starts_i slice digit_first is_digit
one_gig behind_digit String.[] = false
one_gig behind_digit (String.◌∷◌ c s) =
    (not behind_digit
      && (starts_i "1g" (String.◌∷◌ c s) && not (digit_first (slice 2 (String.◌∷◌ c s)))))
    || one_gig (is_digit c) s

unfoldable pub has_one_gig : String → Bool
unfolding one_gig
has_one_gig s = one_gig false s
