-- ===== src/Webui/StpPath/Ways.antt =====
-- nexus/webui/src/pages/STP.tsx: ways along the parents, up and down.
use jaspy.Prelude.{
  ℕ, zero, suc, String, none, some, List, [], ◌∷◌, ◌++◌, Dict, get, get_elem?, arith, ◌≡◌, refl,
  subst, sym, Option-cases, Bool-cases, inl, inr, ◌⊎◌,
}
use jaspy.Webui.Types.{StpNode}
use jaspy.Webui.StpPath.{StpPathHop, seen_has, parent_node, walk, up_hop, down_hop, climb, descend}
use jaspy.Webui.StpPath.Walk.{IsNamed, get-parent_node}

-- Hops from a switch towards the root, each over the root port of the switch that it leaves.
pub data Climbs (by_fqdn : Dict StpNode) : String → List StpPathHop → String → Type 0 where
  there : {a : String} → Climbs by_fqdn a [] a
  up :
      {a p b : String} {n : StpNode} {hs : List StpPathHop}
      → get a by_fqdn ≡ some n
      → n.fqdn ≡ a
      → n.parent ≡ some p
      → Climbs by_fqdn p hs b
      → Climbs by_fqdn a (up_hop n ∷ hs) b

-- Hops away from the root, each over the root port of the switch that it reaches.
pub data Descends (by_fqdn : Dict StpNode) : String → List StpPathHop → String → Type 0 where
  here : {a : String} → Descends by_fqdn a [] a
  down :
      {a p b : String} {n : StpNode} {hs : List StpPathHop}
      → Descends by_fqdn a hs p
      → get b by_fqdn ≡ some n
      → n.fqdn ≡ b
      → n.parent ≡ some p
      → Descends by_fqdn a (hs ++ (down_hop n ∷ [])) b

walk_cons :
    (by_fqdn : Dict StpNode) (fuel : ℕ) (seen : List String) (n : StpNode)
    → (walk by_fqdn (suc fuel) seen (some n) ≡ [])
      ⊎ (walk by_fqdn (suc fuel) seen (some n)
          ≡ n ∷ walk by_fqdn fuel (n.fqdn ∷ seen) (parent_node by_fqdn n))
unfolding walk
walk_cons by_fqdn fuel seen n = elim (Bool-cases (seen_has n.fqdn seen)) [
  | inl e ↦ inl (ground (arith, e))
  | inr e ↦ inr (ground (arith, e))
]

walk-none :
    (by_fqdn : Dict StpNode) (fuel : ℕ) (seen : List String) → walk by_fqdn fuel seen none ≡ []
unfolding walk
walk-none by_fqdn zero seen = refl
walk-none by_fqdn (suc fuel) seen = refl

module _ (by_fqdn : Dict StpNode) where
  -- The ways from a switch up to another and from that one down to it, by their hops.
  pub record Ways (ups : List StpPathHop) (downs : List StpPathHop) (a b : String) : Type 0 where
    pub climbs : Climbs by_fqdn a ups b
    pub descends : Descends by_fqdn b downs a

  cons-Ways :
      (n m : StpNode) (rest : List StpNode) (i : ℕ)
      → get n.fqdn by_fqdn ≡ some n
      → ((j : ℕ)
          → get_elem? rest j ≡ some m
          → (p : String) × (n.parent ≡ some p) × Ways (climb j rest) (descend j rest) p m.fqdn)
      → get_elem? (n ∷ rest) i ≡ some m
      → Ways (climb i (n ∷ rest)) (descend i (n ∷ rest)) n.fqdn m.fqdn
  unfolding climb descend
  cons-Ways n m rest zero g further at =
      let same : n ≡ m = ground (arith, at) in
      subst (λ x. Ways [] [] n.fqdn x.fqdn) same (record { climbs = there; descends = here })
  cons-Ways n m rest (suc i) g further at =
      let (p, parent, ways) = further i at in
      record { climbs = up g refl parent ways.climbs; descends = down ways.descends g refl parent }

  -- The ways between the first node of a chain and another one.
  pub walk-Ways :
      (fuel : ℕ) (seen : List String) (n : StpNode) (i : ℕ) (m : StpNode)
      → IsNamed by_fqdn
      → get n.fqdn by_fqdn ≡ some n
      → let chain = walk by_fqdn fuel seen (some n) in
        get_elem? chain i ≡ some m → Ways (climb i chain) (descend i chain) n.fqdn m.fqdn
  unfolding walk
  walk-Ways zero seen n i m named g at = ground (arith, at)
  walk-Ways (suc fuel) seen n i m named g at = elim (walk_cons by_fqdn fuel seen n) [
    | inl e ↦ ground (arith, subst (λ c. get_elem? c i ≡ some m) e at)
    | inr e ↦
        subst (λ c. Ways (climb i c) (descend i c) n.fqdn m.fqdn) (sym e)
          (cons-Ways n m (walk by_fqdn fuel (n.fqdn ∷ seen) (parent_node by_fqdn n)) i g
            (further (λ p j. walk-Ways fuel (n.fqdn ∷ seen) p j m named))
            (subst (λ c. get_elem? c i ≡ some m) e at))
  ]
    where
      further :
          ((p : StpNode) (j : ℕ)
            → get p.fqdn by_fqdn ≡ some p
            → let rest = walk by_fqdn fuel (n.fqdn ∷ seen) (some p) in
              get_elem? rest j ≡ some m → Ways (climb j rest) (descend j rest) p.fqdn m.fqdn)
          → (j : ℕ)
          → let rest = walk by_fqdn fuel (n.fqdn ∷ seen) (parent_node by_fqdn n) in
            get_elem? rest j ≡ some m
            → (p : String) × (n.parent ≡ some p) × Ways (climb j rest) (descend j rest) p m.fqdn
      further ways j h = elim (Option-cases (parent_node by_fqdn n)) [
        | inl e ↦ absurd (
            ground (
              arith,
              walk-none by_fqdn fuel (n.fqdn ∷ seen),
              subst (λ c. get_elem? (walk by_fqdn fuel (n.fqdn ∷ seen) c) j ≡ some m) e h,
            ))
        | inr (p, e) ↦
            let (parent, stands) = get-parent_node by_fqdn n p named e in
            (
              p.fqdn,
              parent,
              subst
                  (λ c.
                    let rest = walk by_fqdn fuel (n.fqdn ∷ seen) c in
                    Ways (climb j rest) (descend j rest) p.fqdn m.fqdn)
                  (sym e)
                  (ways p j stands
                    (subst (λ c. get_elem? (walk by_fqdn fuel (n.fqdn ∷ seen) c) j ≡ some m) e h)),
            )
      ]
