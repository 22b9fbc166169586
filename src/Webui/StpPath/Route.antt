-- ===== src/Webui/StpPath/Route.antt =====
-- nexus/webui/src/pages/STP.tsx: the hops of `computeStpPath` as a route of the tree.
use jaspy.Prelude.{
  ℕ, suc, true, false, String, none, some, List, [], ◌++◌, Dict, get, has, length, get_elem?, arith,
  ◌≡◌, refl, subst, sym, Option-cases, inl, inr, ◌⊎◌, ◌↔◌, ◌&&◌,
}
use jaspy.Webui.Types.{StpNode, StpTree}
use jaspy.Webui.StpPath.{
  StpPathHop, StpPath, hops, error, not_in_tree, no_common_tree, walk, ancestors, index_nodes,
  climb, descend, splice, compute_stp_path, find_common, index_positions,
}
use jaspy.Webui.StpPath.Walk.{IsNamed, indexed-IsNamed}
use jaspy.Webui.StpPath.Index.{
  IsAt, index_positions-IsAt, has-positions, find_common-some, find_common-none,
}
use jaspy.Webui.StpPath.Ways.{Climbs, Descends, Ways, walk-Ways}

-- A route: up to a switch that both ends lie below, and down from it.
pub record Route (by_fqdn : Dict StpNode) (from to : String) (hs : List StpPathHop) : Type 0 where
  pub top : String
  pub ups : List StpPathHop
  pub downs : List StpPathHop
  pub both : hs ≡ ups ++ downs
  pub climbs : Climbs by_fqdn from ups top
  pub descends : Descends by_fqdn top downs to

-- No switch is on both chains.
abbrev pub Disjoint : List StpNode → List StpNode → Type 0
Disjoint xs ys = (k : String) (i j : ℕ) → IsAt xs i k → IsAt ys j k → ⊥

-- What the function returns for two switches of the tree.
abbrev pub Found : Dict StpNode → String → String → StpPath → Type 0
Found by_fqdn from to path =
    ((hs : List StpPathHop) × (path ≡ hops hs) × Route by_fqdn from to hs)
    ⊎ ((path ≡ error no_common_tree) × Disjoint (ancestors by_fqdn from) (ancestors by_fqdn to))

module _ (by_fqdn : Dict StpNode) (named : IsNamed by_fqdn) where
  ancestors-Ways :
      (start : String) (i : ℕ) (m : StpNode)
      → has start by_fqdn ≡ true
      → get_elem? (ancestors by_fqdn start) i ≡ some m
      → Ways by_fqdn
          (climb i (ancestors by_fqdn start))
          (descend i (ancestors by_fqdn start))
          start
          m.fqdn
  unfolding ancestors
  ancestors-Ways start i m h at = elim (Option-cases (get start by_fqdn)) [
    | inl e ↦ ground (arith, e, h)
    | inr (n, e) ↦
        let name = named.named start n e in
        let fuel = suc (length by_fqdn) in
        let ways =
          walk-Ways by_fqdn fuel [] n i m named (subst (λ k. get k by_fqdn ≡ some n) (sym name) e)
            (subst (λ c. get_elem? (walk by_fqdn fuel [] c) i ≡ some m) e at) in
        subst
          (λ c.
            Ways by_fqdn (climb i (walk by_fqdn fuel [] c)) (descend i (walk by_fqdn fuel [] c))
              start m.fqdn)
          (sym e)
          (subst
            (λ k.
              Ways by_fqdn (climb i (walk by_fqdn fuel [] (some n)))
                (descend i (walk by_fqdn fuel [] (some n))) k m.fqdn)
            name ways)
  ]

  splice-Found :
      (from to : String)
      → has from by_fqdn ≡ true
      → has to by_fqdn ≡ true
      → Found by_fqdn from to (splice (ancestors by_fqdn from) (ancestors by_fqdn to))
  unfolding splice
  splice-Found from to hf ht = elim (Option-cases (find_common to_index up_from)) [
    | inl e ↦ rw (e, splice) (inr (refl, λ k i j a b. apart e k i j a b))
    | inr (i, e) ↦
        let (n, at, positioned) = find_common-some to_index up_from i e in
        elim (Option-cases (get n.fqdn to_index)) [
          | inl missing ↦ ground (arith, missing, positioned)
          | inr (j, found) ↦
              let other = index_positions-IsAt up_to n.fqdn j found in
              let up_ways = ancestors-Ways from i n hf at in
              let down_ways =
                subst (λ k. Ways by_fqdn (climb j up_to) (descend j up_to) to k) other.name
                  (ancestors-Ways to j other.node ht other.at) in
              rw (e, at, found, splice)
                (inl (
                  _,
                  refl,
                  record {
                    top = n.fqdn;
                    ups = climb i up_from;
                    downs = descend j up_to;
                    both = refl;
                    climbs = up_ways.climbs;
                    descends = down_ways.descends;
                  },
                ))
        ]
  ]
    where
      up_from : List StpNode
      up_from = ancestors by_fqdn from

      up_to : List StpNode
      up_to = ancestors by_fqdn to

      to_index : Dict ℕ
      to_index = index_positions 0 up_to []

      apart : find_common to_index up_from ≡ none → Disjoint up_from up_to
      apart e k i j a b =
          let free = find_common-none to_index up_from i a.node e a.at in
          ground (arith, a.name, has-positions 0 up_to [] j k b, free)

-- For two switches of the tree, computeStpPath returns either hops that climb from the one to a
-- switch and descend from it to the other, each over the root port of the switch on the lower side,
-- or the error of no common tree, and then no switch is on both chains of ancestors.
pub compute_stp_path-Found :
    (tree : StpTree) (from to : String)
    → let by_fqdn = index_nodes tree.nodes [] in
      has from by_fqdn ≡ true
      → has to by_fqdn ≡ true
      → Found by_fqdn from to (compute_stp_path tree from to)
unfolding compute_stp_path
compute_stp_path-Found tree from to hf ht =
    rw (hf, ht)
      (splice-Found (index_nodes tree.nodes []) (indexed-IsNamed tree.nodes) from to hf ht)

splice_not_missing : (xs ys : List StpNode) → splice xs ys ≡ error not_in_tree → ⊥
unfolding splice
splice_not_missing xs ys e = ground (arith, e)

-- The report that a switch is missing from the tree is given just when one of the two is.
pub compute_stp_path-not_in_tree :
    (tree : StpTree) (from to : String)
    → let by_fqdn = index_nodes tree.nodes [] in
      (compute_stp_path tree from to ≡ error not_in_tree)
      ↔ ((has from by_fqdn && has to by_fqdn) ≡ false)
unfolding compute_stp_path
compute_stp_path-not_in_tree tree from to =
    let by_fqdn = index_nodes tree.nodes [] in
    let other = splice_not_missing (ancestors by_fqdn from) (ancestors by_fqdn to) in
    (λ e. ground (arith, e, other), λ e. ground (arith, e))
