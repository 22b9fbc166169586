-- ===== src/Webui/StpPath/Walk.antt =====
-- nexus/webui/src/pages/STP.tsx: the loop of `ancestors` that follows the parents.
use jaspy.Prelude.{
  ℕ, zero, suc, ◌≤◌, ◌<◌, true, false, String, Option, none, some, List, [], ◌∷◌, Dict, get, has,
  put, length, if◌then◌else◌, eq_iff, arith, ◌≡◌, refl, get-put, Option-cases, Bool-cases, inl, inr,
}
use jaspy.Webui.Types.{StpNode}
use jaspy.Webui.StpPath.{seen_has, parent_node, walk, ancestors, index_nodes}

-- The nodes of a dictionary stand under their own names.
pub record IsNamed (by_fqdn : Dict StpNode) : Type 0 where
  pub named : (k : String) (n : StpNode) → get k by_fqdn ≡ some n → n.fqdn ≡ k

pub index_nodes-IsNamed :
    (ns : List StpNode) (d : Dict StpNode) → IsNamed d → IsNamed (index_nodes ns d)
unfolding index_nodes
index_nodes-IsNamed [] d h = h
index_nodes-IsNamed (n ∷ ns) d h = index_nodes-IsNamed ns (put n.fqdn n d) (record { named = go })
  where
    go : (k : String) (m : StpNode) → get k (put n.fqdn n d) ≡ some m → m.fqdn ≡ k
    go k m e = ground (arith, get-put n.fqdn k n d, eq_iff n.fqdn k, h.named k m, e)

-- The while loop as the source runs it: a run from the names seen and the current node, with the
-- nodes that it adds to the chain.
pub data Walks (by_fqdn : Dict StpNode) : List String → Option StpNode → List StpNode → Type 0 where
  at_end : {seen : List String} → Walks by_fqdn seen none []
  at_loop :
      {seen : List String} {n : StpNode}
      → seen_has n.fqdn seen ≡ true
      → Walks by_fqdn seen (some n) []
  on :
      {seen : List String} {n : StpNode} {chain : List StpNode}
      → seen_has n.fqdn seen ≡ false
      → Walks by_fqdn (n.fqdn ∷ seen) (parent_node by_fqdn n) chain
      → Walks by_fqdn seen (some n) (n ∷ chain)

-- How many entries are not seen.
unfoldable unseen : List String → Dict StpNode → ℕ
unseen seen [] = 0
unseen seen ((k, v) ∷ d) = let rest = unseen seen d in if seen_has k seen then rest else suc rest

unseen_mono :
    (x : String) (seen : List String) (d : Dict StpNode) → unseen (x ∷ seen) d ≤ unseen seen d
unfolding unseen seen_has
unseen_mono x seen [] = omega arith
unseen_mono x seen ((k, v) ∷ d) = ground (arith, unseen_mono x seen d)

unseen_lt :
    (x : String) (seen : List String) (d : Dict StpNode)
    → has x d ≡ true
    → seen_has x seen ≡ false
    → unseen (x ∷ seen) d < unseen seen d
unfolding unseen seen_has get
unseen_lt x seen [] h f = ground (arith, h)
unseen_lt x seen ((k, v) ∷ d) h f =
    ground (arith, h, f, eq_iff k x, eq_iff x k, unseen_lt x seen d, unseen_mono x seen d)

unseen_length : (d : Dict StpNode) → unseen [] d ≡ length d
unfolding unseen seen_has
unseen_length [] = refl
unseen_length ((k, v) ∷ d) = ground (arith, unseen_length d)

-- A parent stands under its name, the one that the node names.
pub get-parent_node :
    (by_fqdn : Dict StpNode) (n p : StpNode)
    → IsNamed by_fqdn
    → parent_node by_fqdn n ≡ some p
    → (n.parent ≡ some p.fqdn) × (get p.fqdn by_fqdn ≡ some p)
unfolding parent_node
get-parent_node by_fqdn n p h e = elim (Option-cases n.parent) [
  | inl none_parent ↦ ground (arith, none_parent, e)
  | inr (q, eq) ↦ ground (arith, eq, e, h.named q p)
]

has-parent_node :
    (by_fqdn : Dict StpNode) (n p : StpNode)
    → IsNamed by_fqdn
    → parent_node by_fqdn n ≡ some p
    → has p.fqdn by_fqdn ≡ true
has-parent_node by_fqdn n p h e = rw ((get-parent_node by_fqdn n p h e).1) refl

-- Fuel for the entries that are not seen is enough.
walk-Walks :
    (by_fqdn : Dict StpNode) (fuel : ℕ) (seen : List String) (current : Option StpNode)
    → IsNamed by_fqdn
    → ((n : StpNode) → current ≡ some n → has n.fqdn by_fqdn ≡ true)
    → unseen seen by_fqdn < fuel
    → Walks by_fqdn seen current (walk by_fqdn fuel seen current)
unfolding walk
walk-Walks by_fqdn zero seen current named there enough = absurd (omega (arith, enough))
walk-Walks by_fqdn (suc fuel) seen none named there enough = at_end
walk-Walks by_fqdn (suc fuel) seen (some n) named there enough =
    elim (Bool-cases (seen_has n.fqdn seen)) [
      | inl e ↦ rw e (at_loop e)
      | inr e ↦
          let fewer = unseen_lt n.fqdn seen by_fqdn (there n refl) e in
          rw e (
            on e (
              walk-Walks by_fqdn fuel (n.fqdn ∷ seen) (parent_node by_fqdn n) named
                (λ p eq. has-parent_node by_fqdn n p named eq) (omega (arith, fewer, enough))))
    ]

pub ancestors-Walks :
    (by_fqdn : Dict StpNode) (start : String)
    → IsNamed by_fqdn
    → Walks by_fqdn [] (get start by_fqdn) (ancestors by_fqdn start)
unfolding ancestors
ancestors-Walks by_fqdn start h =
    walk-Walks by_fqdn (suc (length by_fqdn)) [] (get start by_fqdn) h
      (λ n e. rw (h.named start n e, e) refl) (omega (arith, unseen_length by_fqdn))

pub indexed-IsNamed : (ns : List StpNode) → IsNamed (index_nodes ns [])
unfolding get
indexed-IsNamed ns = index_nodes-IsNamed ns [] (record { named = λ k n e. ground (arith, e) })

-- The loop of ancestors over the nodes of any tree, loops of parents included, comes to its end,
-- and the chain that it leaves is the result.
pub index_nodes-Walks :
    (ns : List StpNode) (start : String)
    → let by_fqdn = index_nodes ns [] in
      Walks by_fqdn [] (get start by_fqdn) (ancestors by_fqdn start)
index_nodes-Walks ns start = ancestors-Walks (index_nodes ns []) start (indexed-IsNamed ns)
