-- ===== src/Webui/Grouping.antt =====
-- Lists that are filled by key in a `Map`, as the issue list and the catalogue of issue types do.
use mathlib.Core.List.{Perm, append_assoc, append-nil, perm_middle}
use mathlib.Core.List.Perm
use jaspy.Prelude.{
  Bool, true, false, String, Option, none, some, List, [], ◌∷◌, ◌++◌, Dict, get, put, if◌then◌else◌,
  str_eq, eq_iff, ◌≡◌, arith, ap, subst, sym, Bool-cases, Option-cases, inl, inr, get-put,
}

module _ {A : Type 0} where
  -- `arr ? arr.push(a) : groups.set(k, [a])`
  unfoldable pub push_to : String → A → Dict (List A) → Dict (List A)
  push_to k a groups = elim (get k groups) [
    | none ↦ put k (a ∷ []) groups
    | some arr ↦ put k (arr ++ (a ∷ [])) groups
  ]

  -- The elements of all groups, in order.
  abbrev pub grouped : Dict (List A) → List A
  grouped [] = []
  grouped ((k, arr) ∷ groups) = arr ++ grouped groups

  abbrev pub or_empty : Option (List A) → List A
  or_empty none = []
  or_empty (some arr) = arr

  put-Perm :
      (k : String) (a : A) (groups : Dict (List A))
      → get k groups ≡ none
      → Perm (grouped (put k (a ∷ []) groups)) (a ∷ grouped groups)
  unfolding get put
  put-Perm k a [] h = Perm.refl (a ∷ [])
  put-Perm k a ((j, arr) ∷ groups) h = elim (Bool-cases (str_eq j k)) [
    | inl e ↦ ground (arith, e, h)
    | inr e ↦ rw e (
        Perm.trans (Perm.append_left arr (put-Perm k a groups (ground (arith, e, h))))
          (perm_middle arr (grouped groups)))
  ]

  old-Perm :
      (k : String) (a : A) (groups : Dict (List A)) (old : List A)
      → get k groups ≡ some old
      → Perm (grouped (put k (old ++ (a ∷ [])) groups)) (a ∷ grouped groups)
  unfolding get put
  old-Perm k a [] old h = ground (arith, h)
  old-Perm k a ((j, arr) ∷ groups) old h = elim (Bool-cases (str_eq j k)) [
    | inl e ↦
        let same : arr ≡ old = ground (arith, e, h) in
        let joined = append_assoc arr (a ∷ []) (grouped groups) in
        rw e (
          subst (λ x. Perm ((x ++ (a ∷ [])) ++ grouped groups) (a ∷ (arr ++ grouped groups))) same
            (subst (λ x. Perm x (a ∷ (arr ++ grouped groups))) (sym joined)
              (perm_middle arr (grouped groups))))
    | inr e ↦ rw e (
        Perm.trans (Perm.append_left arr (old-Perm k a groups old (ground (arith, e, h))))
          (perm_middle arr (grouped groups)))
  ]

  -- A push adds one element to those of all groups.
  pub push_to-Perm :
      (k : String) (a : A) (groups : Dict (List A))
      → Perm (grouped (push_to k a groups)) (a ∷ grouped groups)
  unfolding push_to
  push_to-Perm k a groups = elim (Option-cases (get k groups)) [
    | inl e ↦ rw (e, push_to) (put-Perm k a groups e)
    | inr (old, e) ↦ rw (e, push_to) (old-Perm k a groups old e)
  ]

  -- A push adds the element behind those of its group.
  pub get-push_to :
      (k j : String) (a : A) (groups : Dict (List A))
      → or_empty (get j (push_to k a groups))
        ≡ or_empty (get j groups) ++ (if str_eq k j then a ∷ [] else [])
  unfolding push_to
  get-push_to k j a groups = ground (
    arith,
    eq_iff k j,
    get-put k j (a ∷ []) groups,
    get-put k j (or_empty (get k groups) ++ (a ∷ [])) groups,
    append-nil (or_empty (get j groups)),
  )

  pub if-append :
      (b : Bool) (a : A) (here later : List A)
      → (here ++ (if b then a ∷ [] else [])) ++ later ≡ here ++ (if b then a ∷ later else later)
  if-append true a here later = append_assoc here (a ∷ []) later
  if-append false a here later = ap (λ x. x ++ later) (append-nil here)
