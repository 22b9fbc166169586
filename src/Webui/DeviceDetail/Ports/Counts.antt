-- ===== src/Webui/DeviceDetail/Ports/Counts.antt =====
-- How many ports the summary of a device counts.
use mathlib.Core.List.{Perm, Permᴰ}
use mathlib.Core.Logic.{∥∥₁_elim}
use native.Mathlib.Nat.{ℕ_set, zero-add}
use jaspy.Prelude.{
  ℕ, ◌+◌, Bool, ◌||◌, String, Option, none, some, List, [], ◌∷◌, ◌++◌, map, length, Dict, get, put,
  ◌≡◌, refl, ap, ◌∙◌, arith, eq_iff, Bool-cases, inl, inr,
}
use jaspy.Webui.Platform.{Platform, Rearranges}
use jaspy.Webui.Patterns.{starts_with}
use jaspy.Webui.DeviceTypes.{Interface}
use jaspy.Webui.Issues.Order.{keep}
use jaspy.Webui.DeviceDetail.Ports.{
  Part, tier, slots, is_physical, is_copper, is_sfp, has_no_media, media_of, count_labels,
  group_slots, port_speed_label, sfp_kind, by_tier, sfp_parts, port_parts, Group, counted, or_empty,
  or_zero,
}

abbrev pub sum_of : {A : Type 0} → (A → ℕ) → List A → ℕ
sum_of f [] = 0
sum_of f (x ∷ xs) = f x + sum_of f xs

-- The ports that a part stands for.
abbrev pub part_count : Part → ℕ
part_count (tier label n suffix) = n
part_count (slots kind total populated) = total

abbrev pub parts_count : List Part → ℕ
parts_count parts = sum_of part_count parts

-- Fixed copper, a cage for an optic, or nothing known.
abbrev pub is_listed : Interface → Bool
is_listed i = has_no_media i || (is_copper i || is_sfp i)

sum_of-Permᴰ : {A : Type 0} (f : A → ℕ) {xs ys : List A} → Permᴰ xs ys → sum_of f xs ≡ sum_of f ys
sum_of-Permᴰ f Permᴰ.nil = refl
sum_of-Permᴰ f (Permᴰ.cons e p) = omega (arith, ap f e, sum_of-Permᴰ f p)
sum_of-Permᴰ f (Permᴰ.swap e h) = omega (arith, ap f e, ap f h)
sum_of-Permᴰ f (Permᴰ.trans p q) = sum_of-Permᴰ f p ∙ sum_of-Permᴰ f q

pub sum_of-Perm : {A : Type 0} (f : A → ℕ) {xs ys : List A} → Perm xs ys → sum_of f xs ≡ sum_of f ys
sum_of-Perm f p = ∥∥₁_elim p (ℕ_set _ _) (sum_of-Permᴰ f)

pub sum_of-map :
    {A B : Type 0} (f : B → ℕ) (g : A → B) (xs : List A)
    → sum_of f (map g xs) ≡ sum_of (λ x. f (g x)) xs
sum_of-map f g [] = refl
sum_of-map f g (x ∷ xs) = ap (λ (n : ℕ). f (g x) + n) (sum_of-map f g xs)

sum_of-append :
    {A : Type 0} (f : A → ℕ) (xs ys : List A) → sum_of f (xs ++ ys) ≡ sum_of f xs + sum_of f ys
sum_of-append f [] ys = omega arith
sum_of-append f (x ∷ xs) ys = omega (arith, sum_of-append f xs ys)

-- The weight of the value under a key.
abbrev weight : {V : Type 0} → (V → ℕ) → Option V → ℕ
weight f none = 0
weight f (some v) = f v

sum_of-put :
    {V : Type 0} (f : V → ℕ) (k : String) (v : V) (d : Dict V)
    → sum_of (λ (x : String × V). f x.1) (put k v d) + weight f (get k d)
      ≡ sum_of (λ (x : String × V). f x.1) d + f v
unfolding put get
sum_of-put f k v [] = omega arith
sum_of-put f k v ((j, w) ∷ d) = ground (arith, sum_of-put f k v d)

pub sum_of-count_labels :
    (labels : List String) (counts : Dict ℕ)
    → sum_of (λ (x : String × ℕ). x.1) (count_labels labels counts)
      ≡ sum_of (λ (x : String × ℕ). x.1) counts + length labels
unfolding count_labels
sum_of-count_labels [] counts = omega arith
sum_of-count_labels (label ∷ labels) counts =
    let n = or_zero (get label counts) in
    ground (
      arith,
      sum_of-put (λ (m : ℕ). m) label (n + 1) counts,
      sum_of-count_labels labels (put label (n + 1) counts),
    )

pub length-map : {A B : Type 0} (f : A → B) (xs : List A) → length (map f xs) ≡ length xs
length-map f [] = refl
length-map f (x ∷ xs) = omega (arith, length-map f xs)

-- The total of a group.
abbrev total_of : Group → ℕ
total_of g = g.0

weight-or_empty : (o : Option Group) → weight total_of o ≡ total_of (or_empty o)
weight-or_empty none = refl
weight-or_empty (some g) = refl

total_of-counted : (i : Interface) (g : Group) → total_of (counted i g) ≡ total_of g + 1
total_of-counted i (total, populated) = refl

module _ (platform : Platform) (sorts : Rearranges platform) where
  sum_of-group_slots :
      (sfp : List Interface) (groups : Dict Group)
      → sum_of (λ (x : String × Group). total_of x.1) (group_slots platform sfp groups)
        ≡ sum_of (λ (x : String × Group). total_of x.1) groups + length sfp
  unfolding group_slots
  sum_of-group_slots [] groups = omega arith
  sum_of-group_slots (i ∷ sfp) groups =
      let kind = sfp_kind platform i in
      let g = or_empty (get kind groups) in
      omega (
        arith,
        sum_of-put total_of kind (counted i g) groups,
        weight-or_empty (get kind groups),
        total_of-counted i g,
        sum_of-group_slots sfp (put kind (counted i g) groups),
      )

  parts_count-by_tier :
      (list : List Interface) (suffix : String)
      → parts_count (by_tier platform list suffix) ≡ length list
  unfolding by_tier
  parts_count-by_tier list suffix =
      let labels = map (port_speed_label platform) list in
      sum_of-map part_count _ _
      ∙ sum_of-Perm (λ (x : String × ℕ). x.1) (sorts.sort-Perm _ (count_labels labels []))
      ∙ sum_of-count_labels labels []
      ∙ zero-add (length labels)
      ∙ length-map (port_speed_label platform) list

  parts_count-sfp_parts : (sfp : List Interface) → parts_count (sfp_parts platform sfp) ≡ length sfp
  unfolding sfp_parts
  parts_count-sfp_parts sfp =
      sum_of-map part_count _ _
      ∙ sum_of-Perm (λ (x : String × Group). total_of x.1)
          (sorts.sort-Perm _ (group_slots platform sfp []))
      ∙ sum_of-group_slots sfp []
      ∙ zero-add (length sfp)

-- The three forms exclude one another.
length-keep_listed :
    (phys : List Interface)
    → length (keep is_copper phys) + (length (keep has_no_media phys) + length (keep is_sfp phys))
      ≡ length (keep is_listed phys)
unfolding starts_with
length-keep_listed [] = refl
length-keep_listed (i ∷ phys) =
    let rest = length-keep_listed phys in
    elim (Bool-cases (has_no_media i)) [
      | inl e ↦
          let blank : media_of i ≡ "" = (eq_iff (media_of i) "").0 e in rw (e, blank) (omega arith)
      | inr e ↦ elim (Bool-cases (is_copper i)) [
        | inl h ↦
            let copper : media_of i ≡ "copper" = (eq_iff (media_of i) "copper").0 h in
            rw (e, h, copper) (omega arith)
        | inr h ↦ rw (e, h) (ground arith)
      ]
    ]

-- Where a sort only rearranges, the parts of the summary count together each physical port that is
-- copper, a cage for an optic or of unknown media once, whatever their speeds and kinds.
pub port_parts-count :
    (platform : Platform)
    → Rearranges platform
    → (interfaces : List Interface)
    → parts_count (port_parts platform interfaces)
      ≡ length (keep is_listed (keep is_physical interfaces))
unfolding port_parts
port_parts-count platform sorts interfaces =
    let phys = keep is_physical interfaces in
    let copper = by_tier platform (keep is_copper phys) " copper" in
    let unknown = by_tier platform (keep has_no_media phys) "" in
    let sfp = sfp_parts platform (keep is_sfp phys) in
    omega (
      arith,
      sum_of-append part_count copper (unknown ++ sfp),
      sum_of-append part_count unknown sfp,
      parts_count-by_tier platform sorts (keep is_copper phys) " copper",
      parts_count-by_tier platform sorts (keep has_no_media phys) "",
      parts_count-sfp_parts platform sorts (keep is_sfp phys),
      length-keep_listed phys,
    )
