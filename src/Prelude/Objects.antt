-- ===== src/Prelude/Objects.antt =====
-- A JavaScript object used as a dictionary: its entries in the order of insertion. The keys of the
-- program (host names, interface names) are taken to be no names of `Object.prototype` and no
-- array indices, so that `in` sees only the entries and `Object.entries` keeps their order.
use mathlib.Core.Path.{◌≡◌, refl, ap}
use mathlib.Core.Bool.{Bool, true, not, ◌&&◌, ◌||◌}
use mathlib.Core.Option.{Option, none, some}
use mathlib.Core.List.{List, [], ◌∷◌}
use native.Mathlib.Omega.{arith}
use Prim.Native.String.{String}
use text.Mathlib.Text.{◌==◌ as str_eq}
use text.Mathlib.TextEquality.{eq_iff}
use jaspy.Prelude.Tests.{if◌then◌else◌, is_some}
use jaspy.Prelude.Lists.{All}

abbrev pub Dict {ℓ} : Type ℓ → Type ℓ
Dict V = List (String × V)

pub str_eq_refl : (k : String) → str_eq k k ≡ true
str_eq_refl k = (eq_iff k k).1 refl

module _ {ℓ} {V : Type ℓ} where
  -- `d[k]`, with `none` for `undefined`.
  unfoldable pub get : String → Dict V → Option V
  get k [] = none
  get k ((j, v) ∷ d) = if str_eq j k then some v else get k d

  -- `k in d`
  abbrev pub has : String → Dict V → Bool
  has k d = is_some (get k d)

  -- `d[k] = v`: in place, or at the end.
  unfoldable pub put : String → V → Dict V → Dict V
  put k v [] = (k, v) ∷ []
  put k v ((j, w) ∷ d) = if str_eq j k then (j, v) ∷ d else (j, w) ∷ put k v d

  -- `delete d[k]`
  unfoldable pub delete : String → Dict V → Dict V
  delete k [] = []
  delete k ((j, w) ∷ d) = let rest = delete k d in if str_eq j k then rest else (j, w) ∷ rest

  pub get-put :
      (k j : String) (v : V) (d : Dict V)
      → get j (put k v d) ≡ (if str_eq k j then some v else get j d)
  unfolding get put
  get-put k j v [] = refl
  get-put k j v ((i, w) ∷ d) = ground (arith, eq_iff k j, eq_iff i k, eq_iff i j, get-put k j v d)

  pub get-put_self : (k : String) (v : V) (d : Dict V) → get k (put k v d) ≡ some v
  get-put_self k v d = simp (get-put, str_eq_refl)

  pub get-delete :
      (k j : String) (d : Dict V) → get j (delete k d) ≡ (if str_eq k j then none else get j d)
  unfolding get delete
  get-delete k j [] = ground arith
  get-delete k j ((i, w) ∷ d) = ground (arith, eq_iff k j, eq_iff i k, eq_iff i j, get-delete k j d)

-- A loop over `Object.entries` that rewrites each value in place.
unfoldable pub map_values {ℓ κ} : {V : Type ℓ} {W : Type κ} → (V → W) → Dict V → Dict W
map_values f [] = []
map_values f ((k, v) ∷ d) = (k, f v) ∷ map_values f d

-- `Object.keys(d)`
abbrev pub keys {ℓ} : {V : Type ℓ} → Dict V → List String
keys [] = []
keys ((k, v) ∷ d) = k ∷ keys d

module _ {ℓ} {V : Type ℓ} where
  pub has-put : (k j : String) (v : V) (d : Dict V) → has j (put k v d) ≡ (str_eq k j || has j d)
  has-put k j v d = ground (arith, get-put k j v d)

  pub has-delete : (k j : String) (d : Dict V) → has j (delete k d) ≡ (not (str_eq k j) && has j d)
  has-delete k j d = ground (arith, get-delete k j d)

  -- Writing a key that is there adds none.
  pub has-put_old :
      (k j : String) (v w : V) (d : Dict V) → get k d ≡ some w → has j (put k v d) ≡ has j d
  has-put_old k j v w d h = ground (arith, get-put k j v d, eq_iff k j)

  pub has-cons : (k j : String) (v : V) (d : Dict V) → has j ((k, v) ∷ d) ≡ (str_eq k j || has j d)
  unfolding get
  has-cons k j v d = ground arith

module _ {ℓ κ} {V : Type ℓ} {W : Type κ} where
  pub keys-map_values : (f : V → W) (d : Dict V) → keys (map_values f d) ≡ keys d
  unfolding map_values
  keys-map_values f [] = refl
  keys-map_values f ((k, v) ∷ d) = ap (λ ks. k ∷ ks) (keys-map_values f d)

module _ {ℓ} {V : Type ℓ} where
  pub keys-put_old : (k : String) (v : V) (d : Dict V) → has k d ≡ true → keys (put k v d) ≡ keys d
  unfolding get put
  keys-put_old k v [] h = ground arith
  keys-put_old k v ((j, w) ∷ d) h = ground (arith, keys-put_old k v d)

  -- What holds of all names of entries, by name.
  pub All-keys {κ} :
      (P : String → Type κ) (d : Dict V) → ((j : String) → has j d ≡ true → P j) → All P (keys d)
  All-keys P [] h = tt
  All-keys P ((k, v) ∷ d) h = (
    h k (rw (has-cons k k v d, str_eq_refl k) refl),
    All-keys P d (λ j e. h j (rw (has-cons k j v d) (ground (arith, e)))),
  )
