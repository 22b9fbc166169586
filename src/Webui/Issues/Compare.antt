-- ===== src/Webui/Issues/Compare.antt =====
-- nexus/webui/src/pages/Issues.tsx: `makeCmp` as an order.
use jaspy.Prelude.{
  ℕ, zero, suc, Bool, true, false, String, if◌then◌else◌, ℤ, pos, negsuc, ◌≡◌, ◌≢◌, refl, arith, ap,
}
use jaspy.Webui.Platform.{Platform}
use jaspy.Webui.Issues.Order.{
  SortVal, null, number, label, negate, difference, compare_values, make_cmp,
}

negate-negate : (x : ℤ) → negate (negate x) ≡ x
negate-negate (pos zero) = refl
negate-negate (pos (suc n)) = refl
negate-negate (negsuc n) = refl

difference-negate : (a b : ℕ) → difference a b ≡ negate (difference b a)
difference-negate a b = ground arith

either :
    (asc : Bool) (x y : ℤ)
    → x ≡ negate y
    → (if asc then x else negate x) ≡ negate (if asc then y else negate y)
either true x y h = h
either false x y h = ap negate h

module _ (platform : Platform) where
  -- `localeCompare` of two texts the other way round has the opposite sign.
  pub record IsAntisymmetric : Type 0 where
    pub antisymmetric :
        (x y : String) → platform.locale_compare x y ≡ negate (platform.locale_compare y x)

  compare_values-negate :
      (asc : Bool) (a b : SortVal)
      → IsAntisymmetric
      → compare_values platform asc a b ≡ negate (compare_values platform asc b a)
  unfolding compare_values
  compare_values-negate asc null null h = refl
  compare_values-negate asc null (number b) h = refl
  compare_values-negate asc null (label b) h = refl
  compare_values-negate asc (number a) null h = refl
  compare_values-negate asc (label a) null h = refl
  compare_values-negate asc (number a) (number b) h =
      either asc (difference a b) (difference b a) (difference-negate a b)
  compare_values-negate asc (number a) (label b) h = either asc _ _ (h.antisymmetric _ _)
  compare_values-negate asc (label a) (number b) h = either asc _ _ (h.antisymmetric _ _)
  compare_values-negate asc (label a) (label b) h = either asc _ _ (h.antisymmetric _ _)

  -- The comparison of two rows the other way round has the opposite sign, in both directions.
  pub make_cmp-negate :
      {A : Type 0} (val : A → SortVal) (asc : Bool) (a b : A)
      → IsAntisymmetric
      → make_cmp platform val asc a b ≡ negate (make_cmp platform val asc b a)
  unfolding make_cmp
  make_cmp-negate val asc a b h = compare_values-negate asc (val a) (val b) h

  -- In both directions, a row without a value stands behind one with a value.
  pub make_cmp-null :
      {A : Type 0} (val : A → SortVal) (asc : Bool) (a b : A)
      → val a ≡ null
      → val b ≢ null
      → (make_cmp platform val asc a b ≡ pos 1) × (make_cmp platform val asc b a ≡ negsuc 0)
  unfolding make_cmp compare_values
  make_cmp-null val asc a b ha hb = ground (arith, ha, hb)
