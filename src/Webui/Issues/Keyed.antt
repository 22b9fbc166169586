-- ===== src/Webui/Issues/Keyed.antt =====
-- nexus/webui/src/pages/Issues.tsx: the key of a row and the issues that it has.
use mathlib.Core.Logic.{∥∥₁_elim}
use mathlib.Core.Bool.{Bool-set}
use mathlib.Core.List.{Perm, Permᴰ}
use jaspy.Prelude.{
  Bool, true, ◌&&◌, String, none, some, List, [], ◌∷◌, ◌++◌, Dict, get, put, if◌then◌else◌, str_eq,
  eq_iff, ◌≡◌, refl, arith, subst, sym, ap, ◌∙◌, Bool-cases, Option-cases, inl, inr, get-put, All,
  All-append,
}
use jaspy.Webui.IssueTypes.{Issue}
use jaspy.Webui.Platform.{Platform, Rearranges}
use jaspy.Webui.Grouping.{push_to}
use jaspy.Webui.Issues.{
  Row, all, any, group_of, bucket, single_row, group_rows, build_rows, member_cmp,
}
use jaspy.Webui.Issues.Lookup.{shown_key, row_keys_from}

-- The key of the row that an issue goes to.
abbrev pub row_key : Issue → String
row_key m = elim (group_of m) [ none ↦ m.issue_key | some k ↦ k ]

module _ {A : Type 0} (p : A → Bool) where
  all-append : (xs ys : List A) → all p (xs ++ ys) ≡ (all p xs && all p ys)
  all-append [] ys = refl
  all-append (x ∷ xs) ys = ground (arith, all-append xs ys)

  all-Permᴰ : {xs ys : List A} → Permᴰ xs ys → all p xs ≡ all p ys
  all-Permᴰ Permᴰ.nil = refl
  all-Permᴰ (Permᴰ.cons e q) = ground (arith, ap p e, all-Permᴰ q)
  all-Permᴰ (Permᴰ.swap e f) = ground (arith, ap p e, ap p f)
  all-Permᴰ (Permᴰ.trans q r) = all-Permᴰ q ∙ all-Permᴰ r

  all-Perm : {xs ys : List A} → Perm xs ys → all p xs ≡ all p ys
  all-Perm {xs} {ys} q = ∥∥₁_elim q (Bool-set (all p xs) (all p ys)) all-Permᴰ

module _ (q : String → Issue → Bool) where
  -- A test of a key and an issue holds in all groups, and in a row.
  abbrev InGroups : Dict (List Issue) → Type 0
  InGroups groups = All (λ g. all (q g.0) g.1 ≡ true) groups

  abbrev pub InRow : Row → Type 0
  InRow r = all (q r.key) r.members ≡ true

  get-InGroups :
      (k : String) (groups : Dict (List Issue)) (arr : List Issue)
      → InGroups groups
      → get k groups ≡ some arr
      → all (q k) arr ≡ true
  unfolding get
  get-InGroups k [] arr h e = ground (arith, e)
  get-InGroups k ((j, old) ∷ groups) arr h e = elim (Bool-cases (str_eq j k)) [
    | inl same ↦
        let found : old ≡ arr = ground (arith, same, e) in
        subst (λ i. all (q i) arr ≡ true) ((eq_iff j k).0 same)
          (subst (λ xs. all (q j) xs ≡ true) found h.0)
    | inr other ↦ get-InGroups k groups arr h.1 (ground (arith, other, e))
  ]

  put-InGroups :
      (k : String) (arr : List Issue) (groups : Dict (List Issue))
      → InGroups groups
      → all (q k) arr ≡ true
      → InGroups (put k arr groups)
  unfolding put
  put-InGroups k arr [] h e = (e, tt)
  put-InGroups k arr ((j, old) ∷ groups) h e = elim (Bool-cases (str_eq j k)) [
    | inl same ↦ rw same (subst (λ i. all (q i) arr ≡ true) (sym ((eq_iff j k).0 same)) e, h.1)
    | inr other ↦ rw other (h.0, put-InGroups k arr groups h.1 e)
  ]

  push_to-InGroups :
      (k : String) (i : Issue) (groups : Dict (List Issue))
      → InGroups groups
      → q k i ≡ true
      → InGroups (push_to k i groups)
  unfolding push_to
  push_to-InGroups k i groups h e = elim (Option-cases (get k groups)) [
    | inl missing ↦ rw (missing, push_to) (put-InGroups k (i ∷ []) groups h (ground (arith, e)))
    | inr (arr, found) ↦
        rw (found, push_to)
          (put-InGroups k (arr ++ (i ∷ [])) groups h
            (ground (arith, e, all-append (q k) arr (i ∷ []), get-InGroups k groups arr h found)))
  ]

  bucket-InRow :
      (list : List Issue) (groups : Dict (List Issue)) (rows : List Row)
      → all (λ m. q (row_key m) m) list ≡ true
      → InGroups groups
      → All InRow rows
      → let (groups', rows') = bucket list groups rows in InGroups groups' × All InRow rows'
  unfolding bucket
  bucket-InRow [] groups rows h hg hr = (hg, hr)
  bucket-InRow (m ∷ list) groups rows h hg hr = elim (Option-cases (group_of m)) [
    | inl e ↦
        rw (e, bucket)
          (bucket-InRow list groups (rows ++ (single_row m ∷ [])) (ground (arith, h)) hg
            (All-append InRow rows (single_row m ∷ []) hr (ground (arith, e, h), tt)))
    | inr (k, e) ↦
        rw (e, bucket)
          (bucket-InRow list (push_to k m groups) rows (ground (arith, h))
            (push_to-InGroups k m groups hg (ground (arith, e, h))) hr)
  ]

  group_rows-InRow :
      (platform : Platform) (groups : Dict (List Issue))
      → Rearranges platform
      → InGroups groups
      → All InRow (group_rows platform groups)
  unfolding group_rows
  group_rows-InRow platform [] sorting h = tt
  group_rows-InRow platform ((k, arr) ∷ groups) sorting h =
      let sorted = platform.sort (member_cmp platform) arr in
      go (group_rows-InRow platform groups sorting h.1) sorted
        (all-Perm (q k) (sorting.sort-Perm (member_cmp platform) arr) ∙ h.0)
    where
      go :
          All InRow (group_rows platform groups)
          → (sorted : List Issue) → all (q k) sorted ≡ true
          → All InRow (elim sorted [
            | [] ↦ group_rows platform groups
            | m ∷ ms ↦
                record { key = k; members = m ∷ ms; primary = m } ∷ group_rows platform groups
          ])
      go rest [] e = rest
      go rest (m ∷ ms) e = (e, rest)

  -- What holds of every issue and the key of its row holds in every row.
  pub build_rows-InRow :
      (platform : Platform) (list : List Issue)
      → Rearranges platform
      → all (λ m. q (row_key m) m) list ≡ true
      → All InRow (build_rows platform list)
  unfolding build_rows
  build_rows-InRow platform list sorting h =
      let (groups, rows) = bucket list [] [] in
      let (hg, hr) = bucket-InRow list [] [] h tt tt in
      All-append InRow rows (group_rows platform groups) hr
        (group_rows-InRow platform groups sorting hg)

unfoldable pub occurs : String → List Issue → Bool
occurs k list = any (λ m. str_eq m.issue_key k) list

-- Where the key of an issue fixes the key that is shown for it, the table has that one.
pub row_keys_from-get :
    (f : String → String) (list : List Issue) (table : Dict String) (k : String)
    → All (λ m. shown_key m ≡ f m.issue_key) list
    → get k (row_keys_from list table) ≡ (if occurs k list then some (f k) else get k table)
unfolding row_keys_from occurs
row_keys_from-get f [] table k h = refl
row_keys_from-get f (m ∷ list) table k h =
    let later = row_keys_from-get f list (put m.issue_key (shown_key m) table) k h.1 in
    let now = get-put m.issue_key k (shown_key m) table in
    elim (Bool-cases (str_eq m.issue_key k)) [
      | inl e ↦
          let same : f m.issue_key ≡ f k = ap f ((eq_iff m.issue_key k).0 e) in
          ground (arith, later, now, e, h.0, same)
      | inr e ↦ ground (arith, later, now, e)
    ]
