-- ===== src/Prelude/Throwing.antt =====
-- Code that may throw: the state that it leaves behind, on return or at the throw.
use mathlib.Core.Path.{◌≡◌, refl}
use mathlib.Core.Bool.{Bool, true, false}
use mathlib.Core.Logic.{◌⊎◌, inl, inr}
use native.Mathlib.Omega.{arith}

pub data Outcome {ℓ} (A : Type ℓ) : Type ℓ where
  done : A → Outcome A
  threw : A → Outcome A

-- What follows a statement, in the same state; an exception skips it.
infixl 5 ◌>>=◌
abbrev pub ◌>>=◌ {ℓ} : {A : Type ℓ} → Outcome A → (A → Outcome A) → Outcome A
done a >>= f = f a
threw a >>= f = threw a

module _ {ℓ} {A : Type ℓ} where
  -- The state, however the code ended.
  abbrev pub state : Outcome A → A
  state (done a) = a
  state (threw a) = a

  abbrev pub has_thrown : Outcome A → Bool
  has_thrown (done a) = false
  has_thrown (threw a) = true

  pub Outcome-cases : (o : Outcome A) → ((a : A) × (o ≡ done a)) ⊎ ((a : A) × (o ≡ threw a))
  Outcome-cases (done a) = inl (a, refl)
  Outcome-cases (threw a) = inr (a, refl)

  pub done≢threw : {a b : A} → done a ≡ threw b → ⊥
  done≢threw e = ground arith
