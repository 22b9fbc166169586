-- ===== src/Prelude/Removal.antt =====
-- The tests of a loop that removes the entries whose keys a list of data no longer has.
use mathlib.Core.Path.{◌≡◌, refl}
use mathlib.Core.Bool.{Bool, true, false, not, ◌&&◌, ◌||◌}
use native.Mathlib.Omega.{arith}

pub keep_all : (a b : Bool) → a ≡ (a && (b || true))
keep_all true true = refl
keep_all true false = refl
keep_all false b = refl

-- The two ways of a round of the second loop, over the tests: `e` for the key at hand, `a` for the
-- map, `b` for the data and `r` for the entries behind.
pub kept :
    (e a b r : Bool) → (e ≡ true → b ≡ true) → (a && (b || not r)) ≡ (a && (b || not (e || r)))
kept true a true r h = refl
kept true a false r h = ground (arith, h refl)
kept false a b r h = refl

pub dropped :
    (e a b r : Bool)
    → (e ≡ true → b ≡ false)
    → ((not e && a) && (b || not r)) ≡ (a && (b || not (e || r)))
dropped true true true r h = ground (arith, h refl)
dropped true true false r h = refl
dropped true false b r h = refl
dropped false a b r h = refl

pub in_data : (a b : Bool) → ((b || a) && (b || not (b || a))) ≡ b
in_data true true = refl
in_data true false = refl
in_data false true = refl
in_data false false = refl
