-- ===== src/Webui/Text/Split.antt =====
-- `split` and `join` at one character.
use Prim.Native.Char.{Char, code}
use Prim.Native.String.append
use text.Mathlib.TextEquality.{Char-path}
use jaspy.Prelude.{
  Bool, false, ◌||◌, String, List, [], ◌∷◌, ◌==◌, str_append, ◌≡◌, refl, arith, Bool-cases, inl,
  inr, ap, ◌∙◌, sym,
}
use jaspy.Webui.Text.{split, join, add_first}

unfoldable pub has_char : Char → String → Bool
has_char d String.[] = false
has_char d (String.◌∷◌ c s) = code c == code d || has_char d s

pub append_nil : (t : String) → str_append String.[] t ≡ t
append_nil t = λ i. append.nil t i

pub append_cons :
    (c : Char) (s t : String) → str_append (String.◌∷◌ c s) t ≡ String.◌∷◌ c (str_append s t)
append_cons c s t = λ i. append.cons c s t i

-- A split has a first part.
pub split_cons : (d : Char) (s : String) → (p : String) × (ps : List String) × (split d s ≡ p ∷ ps)
unfolding split add_first
split_cons d String.[] = (_, _, refl)
split_cons d (String.◌∷◌ c s) = elim (Bool-cases (code c == code d)) [
  | inl e ↦ (String.[], split d s, rw e refl)
  | inr e ↦ let (p, ps, h) = split_cons d s in (String.◌∷◌ c p, ps, rw (e, h) refl)
]

join_empty_first :
    (d : Char) (p : String) (ps : List String)
    → let one = String.◌∷◌ d String.[] in
      join one (String.[] ∷ p ∷ ps) ≡ String.◌∷◌ d (join one (p ∷ ps))
unfolding join
join_empty_first d p ps =
    let rest = join (String.◌∷◌ d String.[]) (p ∷ ps) in
    append_nil (str_append (String.◌∷◌ d String.[]) rest)
    ∙ append_cons d String.[] rest
    ∙ ap (λ t. String.◌∷◌ d t) (append_nil rest)

join_one : (separator p : String) → join separator (p ∷ []) ≡ p
unfolding join
join_one separator p = refl

join_first :
    (separator : String) (c : Char) (p : String) (ps : List String)
    → join separator (String.◌∷◌ c p ∷ ps) ≡ String.◌∷◌ c (join separator (p ∷ ps))
unfolding join
join_first separator c p [] = refl
join_first separator c p (q ∷ qs) = append_cons c p (str_append separator (join separator (q ∷ qs)))

-- The parts joined by the separator are the text.
pub join-split : (d : Char) (s : String) → join (String.◌∷◌ d String.[]) (split d s) ≡ s
unfolding split add_first
join-split d String.[] = join_one (String.◌∷◌ d String.[]) String.[]
join-split d (String.◌∷◌ c s) =
    let (p, ps, h) = split_cons d s in
    let one = String.◌∷◌ d String.[] in
    let rest : join one (p ∷ ps) ≡ s = ap (join one) (sym h) ∙ join-split d s in
    elim (Bool-cases (code c == code d)) [
      | inl e ↦
          let same : c ≡ d = Char-path c d (ground (arith, e)) in
          rw (e, h)
            (join_empty_first d p ps
              ∙ ap (λ t. String.◌∷◌ d t) rest
              ∙ ap (λ x. String.◌∷◌ x s) (sym same))
      | inr e ↦ rw (e, h) (join_first one c p ps ∙ ap (λ t. String.◌∷◌ c t) rest)
    ]

-- Before the first separator stands one part.
pub split-append :
    (d : Char) (s t : String)
    → has_char d s ≡ false
    → split d (str_append s (String.◌∷◌ d t)) ≡ s ∷ split d t
unfolding split add_first has_char
split-append d String.[] t h = rw (append_nil (String.◌∷◌ d t)) (ground arith)
split-append d (String.◌∷◌ c s) t h =
    rw (append_cons c s (String.◌∷◌ d t))
      (ground (arith, h, split-append d s t (ground (arith, h))))

pub split_one : (d : Char) (s : String) → has_char d s ≡ false → split d s ≡ s ∷ []
unfolding split add_first has_char
split_one d String.[] h = refl
split_one d (String.◌∷◌ c s) h = ground (arith, h, split_one d s (ground (arith, h)))

pub split_first :
    (d c : Char) (s : String)
    → code c == code d ≡ false
    → (p : String) (ps : List String) → split d s ≡ p ∷ ps
    → split d (String.◌∷◌ c s) ≡ String.◌∷◌ c p ∷ ps
unfolding split add_first
split_first d c s other p ps h = rw (other, h) refl
