-- ===== src/Tests/Webui/Browser.antt =====
-- A browser for the web interface: texts in the order of their characters, an insertion sort, a trim
-- of spaces, decimal numbers, and texts that are all in lower case.
use Prim.Native.Char.{code}
use Prim.Native.String.{compare}
use Prim.Native.String.append
use Prim.Native.Nat.{Ordering}
use mathlib.Core.List.{Perm}
use mathlib.Core.List.Perm
use jaspy.Prelude.{
  ℕ, zero, suc, ◌+◌, ◌*◌, ◌/◌, ◌%◌, Bool, true, false, ◌&&◌, ◌||◌, String, List, [], ◌∷◌, ℤ, pos,
  negsuc, if◌then◌else◌, ltb, ◌==◌, str_eq, str_append, ◌≡◌, refl, ap, ◌∙◌, Bool-cases, inl, inr,
}
use jaspy.Webui.Platform.{Platform, Rearranges, TrimsSpace}

abbrev is_positive : ℤ → Bool
is_positive (pos zero) = false
is_positive (pos (suc n)) = true
is_positive (negsuc n) = false

module _ {A : Type 0} (cmp : A → A → ℤ) where
  unfoldable pub insert : A → List A → List A
  insert x [] = x ∷ []
  insert x (y ∷ ys) =
      let later = y ∷ insert x ys in if is_positive (cmp x y) then later else x ∷ y ∷ ys

  unfoldable pub insertion_sort : List A → List A
  unfolding insert
  insertion_sort [] = []
  insertion_sort (x ∷ xs) = insert x (insertion_sort xs)

  insert-Perm : (x : A) (ys : List A) → Perm (insert x ys) (x ∷ ys)
  unfolding insert
  insert-Perm x [] = Perm.refl (x ∷ [])
  insert-Perm x (y ∷ ys) = elim (Bool-cases (is_positive (cmp x y))) [
    | inl e ↦ rw e (Perm.trans (Perm.cons y (insert-Perm x ys)) (Perm.swap x y ys))
    | inr e ↦ rw e (Perm.refl (x ∷ y ∷ ys))
  ]

  pub insertion_sort-Perm : (xs : List A) → Perm (insertion_sort xs) xs
  unfolding insertion_sort
  insertion_sort-Perm [] = Perm.refl []
  insertion_sort-Perm (x ∷ xs) =
      Perm.trans (insert-Perm x (insertion_sort xs)) (Perm.cons x (insertion_sort-Perm xs))

unfoldable trim_start : String → String
trim_start String.[] = String.[]
trim_start (String.◌∷◌ c s) =
    let rest = trim_start s in if code c == b' ' then rest else String.◌∷◌ c s

unfoldable trim_end : String → String
trim_end String.[] = String.[]
trim_end (String.◌∷◌ c s) =
    let rest = trim_end s in if str_eq rest "" && code c == b' ' then "" else String.◌∷◌ c rest

unfoldable trim : String → String
unfolding trim_start trim_end
trim s = trim_end (trim_start s)

pick : ℕ → List String → String
pick n [] = "9"
pick zero (x ∷ xs) = x
pick (suc n) (x ∷ xs) = pick n xs

digit : ℕ → String
unfolding pick
digit n = pick n ("0" ∷ "1" ∷ "2" ∷ "3" ∷ "4" ∷ "5" ∷ "6" ∷ "7" ∷ "8" ∷ [])

decimal : ℕ → ℕ → String
unfolding digit
decimal zero n = ""
decimal (suc fuel) n =
    let tens = decimal fuel (n / 10) in str_append (if ltb n 10 then "" else tens) (digit (n % 10))

-- A quotient with two decimals, rounded to the nearest.
fixed : ℕ → ℕ → String
unfolding decimal digit
fixed a zero = "NaN"
fixed a b =
    let hundredths = (a * 200 + b) / (2 * b) in
    let whole = decimal (suc (hundredths / 100)) (hundredths / 100) in
    let cents = str_append (digit (hundredths / 10 % 10)) (digit (hundredths % 10)) in
    str_append whole (str_append "." cents)

unfoldable locale : String → String → ℤ
locale a b = elim (compare a b) [
  | Ordering.lt ↦ negsuc 0
  | Ordering.eq ↦ pos 0
  | Ordering.gt ↦ pos 1
]

unfoldable starts_with : String → String → Bool
starts_with s String.[] = true
starts_with String.[] (String.◌∷◌ d t) = false
starts_with (String.◌∷◌ c s) (String.◌∷◌ d t) =
    let rest = starts_with s t in code c == code d && rest

unfoldable includes : String → String → Bool
unfolding starts_with
includes String.[] t = str_eq t ""
includes (String.◌∷◌ c s) t = let rest = includes s t in starts_with (String.◌∷◌ c s) t || rest

unfoldable pub browser : Platform
unfolding locale insertion_sort trim decimal fixed includes starts_with
browser = record {
  locale_compare = locale;
  sort = λ cmp xs. insertion_sort cmp xs;
  show = λ n. decimal (suc n) n;
  to_fixed = fixed;
  trim = trim;
  locale_compare_plain = locale;
  compare_units = locale;
  to_lower_case = λ s. s;
  includes = includes;
  starts_with = starts_with;
}

pub browser-Rearranges : Rearranges browser
unfolding browser
browser-Rearranges = record { sort-Perm = λ cmp xs. insertion_sort-Perm cmp xs }

pub browser-TrimsSpace : TrimsSpace browser
unfolding browser trim trim_start trim_end
browser-TrimsSpace = record { trim_space = λ s. ap trim (space_cons s); trim_blank = refl }
  where
    space_cons : (t : String) → str_append " " t ≡ String.◌∷◌ " " t
    space_cons t =
        (λ i. append.cons " " String.[] t i) ∙ ap (λ x. String.◌∷◌ " " x) (λ i. append.nil t i)
