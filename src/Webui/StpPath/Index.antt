-- ===== src/Webui/StpPath/Index.antt =====
-- nexus/webui/src/pages/STP.tsx: the positions of `computeStpPath`, `toIndex` and `findIndex`.
use jaspy.Prelude.{
  ℕ, zero, suc, ◌+◌, true, false, String, none, some, List, [], ◌∷◌, Dict, get, has, put, get_elem?,
  str_eq, eq_iff, arith, ◌≡◌, refl, get-put, has-put, subst, Option-cases, Bool-cases, inl, inr,
  ◌⊎◌,
}
use jaspy.Webui.Types.{StpNode}
use jaspy.Webui.StpPath.{index_positions, find_common}

-- A node that stands at a place of a chain, under a name.
pub record IsAt (chain : List StpNode) (i : ℕ) (k : String) : Type 0 where
  pub node : StpNode
  pub at : get_elem? chain i ≡ some node
  pub name : node.fqdn ≡ k

-- A position in the map is one of the chain, or was there before.
positions-IsAt :
    (start : ℕ) (ns : List StpNode) (d : Dict ℕ) (k : String) (j : ℕ)
    → get k (index_positions start ns d) ≡ some j
    → (get k d ≡ some j) ⊎ ((i : ℕ) × (j ≡ start + i) × IsAt ns i k)
unfolding index_positions
positions-IsAt start [] d k j e = inl e
positions-IsAt start (n ∷ ns) d k j e =
    elim (positions-IsAt (suc start) ns (put n.fqdn start d) k j e) [
      | inr (i, eq, at) ↦
          inr (suc i, omega (arith, eq), record { node = at.node; at = at.at; name = at.name })
      | inl before ↦ elim (Bool-cases (str_eq n.fqdn k)) [
        | inl same ↦ inr (
          0,
          ground (arith, get-put n.fqdn k start d, same, before),
          record { node = n; at = refl; name = (eq_iff n.fqdn k).0 same },
        )
        | inr other ↦ inl (ground (arith, get-put n.fqdn k start d, other, before))
      ]
    ]

pub index_positions-IsAt :
    (ns : List StpNode) (k : String) (j : ℕ)
    → get k (index_positions 0 ns []) ≡ some j
    → IsAt ns j k
unfolding get
index_positions-IsAt ns k j e = elim (positions-IsAt 0 ns [] k j e) [
  | inl h ↦ ground (arith, h)
  | inr (i, eq, at) ↦ subst (λ m. IsAt ns m k) (omega (arith, eq)) at
]

has_before-positions :
    (start : ℕ) (ns : List StpNode) (d : Dict ℕ) (k : String)
    → has k d ≡ true
    → has k (index_positions start ns d) ≡ true
unfolding index_positions
has_before-positions start [] d k h = h
has_before-positions start (n ∷ ns) d k h =
    has_before-positions (suc start) ns (put n.fqdn start d) k
      (ground (arith, has-put n.fqdn k start d, h))

-- Every node of the chain has a position.
pub has-positions :
    (start : ℕ) (ns : List StpNode) (d : Dict ℕ) (i : ℕ) (k : String)
    → IsAt ns i k
    → has k (index_positions start ns d) ≡ true
unfolding index_positions
has-positions start [] d i k h = ground (arith, h.at)
has-positions start (n ∷ ns) d zero k h =
    has_before-positions (suc start) ns (put n.fqdn start d) k
      (ground (arith, has-put n.fqdn k start d, h.at, h.name, eq_iff n.fqdn k))
has-positions start (n ∷ ns) d (suc i) k h =
    has-positions (suc start) ns (put n.fqdn start d) i k
      (record { node = h.node; at = h.at; name = h.name })

-- What `findIndex` finds is the first node that has a position.
pub find_common-some :
    (d : Dict ℕ) (ns : List StpNode) (i : ℕ)
    → find_common d ns ≡ some i
    → (n : StpNode) × (get_elem? ns i ≡ some n) × (has n.fqdn d ≡ true)
unfolding find_common
find_common-some d [] i e = ground (arith, e)
find_common-some d (n ∷ ns) i e = elim (Bool-cases (has n.fqdn d)) [
  | inl h ↦ (n, ground (arith, h, e), h)
  | inr h ↦ elim (Option-cases (find_common d ns)) [
    | inl missing ↦ ground (arith, h, missing, e)
    | inr (j, found) ↦
        let (m, at, there) = find_common-some d ns j found in
        (m, ground (arith, h, found, e, at), there)
  ]
]

pub find_common-none :
    (d : Dict ℕ) (ns : List StpNode) (i : ℕ) (n : StpNode)
    → find_common d ns ≡ none
    → get_elem? ns i ≡ some n
    → has n.fqdn d ≡ false
unfolding find_common
find_common-none d [] i n e at = ground (arith, at)
find_common-none d (m ∷ ns) zero n e at = ground (arith, e, at)
find_common-none d (m ∷ ns) (suc i) n e at = find_common-none d ns i n (ground (arith, e)) at
