-- ===== src/Webui/Issues/Conserved.antt =====
-- nexus/webui/src/pages/Issues.tsx: the issues of the rows.
use mathlib.Core.Logic.{∥∥₁_elim}
use mathlib.Core.List.{Perm, Permᴰ, append_assoc, append-nil, perm_middle, Perm-prop}
use mathlib.Core.List.Perm
use mathlib.Core.List.Permᴰ
use jaspy.Prelude.{
  Bool, not, String, Option, List, [], ◌∷◌, ◌++◌, Dict, ◌≡◌, refl, subst, sym, ap, ◌∙◌, Bool-cases,
  Option-cases, inl, inr,
}
use jaspy.Webui.IssueTypes.{Issue}
use jaspy.Webui.Platform.{Platform, Rearranges}
use jaspy.Webui.Issues.{
  Row, row_acked, bucket, group_of, group_rows, build_rows, member_cmp, single_row,
}
use jaspy.Webui.Grouping.{push_to, push_to-Perm, grouped}
use jaspy.Webui.Issues.Order.{IssueSortKey, keep, has_kind, split_rows, make_cmp, row_sort_val}

abbrev pub members_of : List Row → List Issue
members_of [] = []
members_of (r ∷ rs) = r.members ++ members_of rs

members_of-append : (rs ss : List Row) → members_of (rs ++ ss) ≡ members_of rs ++ members_of ss
members_of-append [] ss = refl
members_of-append (r ∷ rs) ss =
    ap (λ xs. r.members ++ xs) (members_of-append rs ss)
    ∙ sym (append_assoc r.members (members_of rs) (members_of ss))

module _ {A : Type 0} where
  path-Perm : {xs ys : List A} → xs ≡ ys → Perm xs ys
  path-Perm {xs} e = subst (λ zs. Perm xs zs) e (Perm.refl xs)

  append_comm-Perm : (xs ys : List A) → Perm (xs ++ ys) (ys ++ xs)
  append_comm-Perm xs ys = ∣ Permᴰ.append_comm xs ys ∣₁

  -- Two lists in front of a third change places.
  swap-Perm : (xs ys zs : List A) → Perm (xs ++ (ys ++ zs)) (ys ++ (xs ++ zs))
  swap-Perm xs ys zs = Perm.trans (path-Perm (sym (append_assoc xs ys zs))) (
      Perm.trans (Perm.append_right zs (append_comm-Perm xs ys))
        (path-Perm (append_assoc ys xs zs)))

  -- The elements that pass a test and those that do not.
  keep-Perm : (p : A → Bool) (xs : List A) → Perm (keep (λ x. not (p x)) xs ++ keep p xs) xs
  keep-Perm p [] = Perm.refl []
  keep-Perm p (x ∷ xs) = elim (Bool-cases (p x)) [
    | inl e ↦ rw e (
        Perm.trans (perm_middle (keep (λ y. not (p y)) xs) (keep p xs))
          (Perm.cons x (keep-Perm p xs)))
    | inr e ↦ rw e (Perm.cons x (keep-Perm p xs))
  ]

members_of-Permᴰ : {rs ss : List Row} → Permᴰ rs ss → Perm (members_of rs) (members_of ss)
members_of-Permᴰ Permᴰ.nil = Perm.refl []
members_of-Permᴰ (Permᴰ.cons {a = r} {b = s} {l₁ = rs} {l₂ = ss} e p) =
    subst (λ t. Perm (r.members ++ members_of rs) (t.members ++ members_of ss)) e
      (Perm.append_left r.members (members_of-Permᴰ p))
members_of-Permᴰ (Permᴰ.swap {a = r} {b = s} {a' = t} {b' = u} {l = rs} e f) =
    let list = r.members ++ (s.members ++ members_of rs) in
    subst (λ x. Perm list (t.members ++ (x.members ++ members_of rs))) e
      (subst (λ x. Perm list (x.members ++ (r.members ++ members_of rs))) f
        (swap-Perm r.members s.members (members_of rs)))
members_of-Permᴰ (Permᴰ.trans p q) = Perm.trans (members_of-Permᴰ p) (members_of-Permᴰ q)

members_of-Perm : {rs ss : List Row} → Perm rs ss → Perm (members_of rs) (members_of ss)
members_of-Perm {rs} {ss} p = ∥∥₁_elim p Perm-prop members_of-Permᴰ

-- One more issue, in front of the issues to come or behind them.
later-Perm :
    (i : Issue) (list xs ys : List Issue) → Perm ys (i ∷ xs) → Perm (list ++ ys) (i ∷ (list ++ xs))
later-Perm i list xs ys p = Perm.trans (Perm.append_left list p) (perm_middle list xs)

bucket-Perm :
    (list : List Issue) (groups : Dict (List Issue)) (rows : List Row)
    → let (groups', rows') = bucket list groups rows in
      Perm (members_of rows' ++ grouped groups') (list ++ (members_of rows ++ grouped groups))
unfolding bucket
bucket-Perm [] groups rows = Perm.refl _
bucket-Perm (i ∷ list) groups rows = elim (Option-cases (group_of i)) [
  | inl e ↦
      rw (e, bucket)
        (Perm.trans (bucket-Perm list groups (rows ++ (single_row i ∷ []))) (
          later-Perm i list (members_of rows ++ grouped groups) _ (
            Perm.trans
              (path-Perm (
                ap (λ xs. xs ++ grouped groups) (members_of-append rows (single_row i ∷ []))
                ∙ append_assoc (members_of rows) (i ∷ []) (grouped groups)))
              (perm_middle (members_of rows) (grouped groups)))))
  | inr (k, e) ↦
      rw (e, bucket)
        (Perm.trans (bucket-Perm list (push_to k i groups) rows) (
          later-Perm i list (members_of rows ++ grouped groups) _
            (later-Perm i (members_of rows) (grouped groups) _ (push_to-Perm k i groups))))
]

module _ (platform : Platform) (sorting : Rearranges platform) where
  group_rows-Perm :
      (groups : Dict (List Issue)) → Perm (members_of (group_rows platform groups)) (grouped groups)
  unfolding group_rows
  group_rows-Perm [] = Perm.refl []
  group_rows-Perm ((k, arr) ∷ groups) =
      go (group_rows-Perm groups) (platform.sort (member_cmp platform) arr)
        (sorting.sort-Perm (member_cmp platform) arr)
    where
      go :
          Perm (members_of (group_rows platform groups)) (grouped groups)
          → (sorted : List Issue) → Perm sorted arr
          → Perm
              (members_of (elim sorted [
                | [] ↦ group_rows platform groups
                | m ∷ ms ↦
                    record { key = k; members = m ∷ ms; primary = m } ∷ group_rows platform groups
              ]))
              (arr ++ grouped groups)
      go rest [] p = Perm.append p rest
      go rest (m ∷ ms) p = Perm.append p rest

  -- The rows have the issues of the list, each as often.
  pub build_rows-Perm : (list : List Issue) → Perm (members_of (build_rows platform list)) list
  unfolding build_rows
  build_rows-Perm list =
      let (groups, rows) = bucket list [] [] in
      Perm.trans (path-Perm (members_of-append rows (group_rows platform groups))) (
        Perm.trans (Perm.append_left (members_of rows) (group_rows-Perm groups))
          (Perm.trans (bucket-Perm list [] []) (path-Perm (append-nil list))))

  -- Where a sort only rearranges, the active rows and the acknowledged ones have between them the
  -- issues of the selected kind, each as often as the list has it, whatever the groups, the column
  -- and the direction.
  pub split_rows-Perm :
      (issues : List Issue) (kind : Option String) (key : IssueSortKey) (asc : Bool)
      → let (active, acknowledged) = split_rows platform issues kind key asc in
        Perm (members_of active ++ members_of acknowledged) (keep (has_kind kind) issues)
  unfolding split_rows
  split_rows-Perm issues kind key asc =
      let cmp = make_cmp platform (row_sort_val key) asc in
      let rows = build_rows platform (keep (has_kind kind) issues) in
      let active = keep (λ r. not (row_acked r)) rows in
      let acked = keep row_acked rows in
      Perm.trans
        (Perm.append (members_of-Perm (sorting.sort-Perm cmp active))
          (members_of-Perm (sorting.sort-Perm cmp acked)))
        (Perm.trans (path-Perm (sym (members_of-append active acked))) (
          Perm.trans (members_of-Perm (keep-Perm row_acked rows))
            (build_rows-Perm (keep (has_kind kind) issues))))
