-- ===== src/Webui/StpPath.antt =====
-- nexus/webui/src/pages/STP.tsx: `computeStpPath`, the route between two switches along a spanning
-- tree. A `Map` is a dictionary that keeps the order of insertion; `child.parent!` is the field as
-- it is, null included.
use jaspy.Prelude.{
  ℕ, zero, suc, ◌+◌, Bool, true, false, not, ◌&&◌, ◌||◌, String, Option, none, some, List, [], ◌∷◌,
  ◌++◌, Dict, get, has, put, length, get_elem?, if◌then◌else◌, str_eq,
}
use jaspy.Webui.Types.{StpNode, StpTree}
pub mod Walk
mod Index
mod Ways
pub mod Route

pub record StpPathHop : Type 0 where
  pub from : Option String
  pub from_interface : Option String
  pub to : Option String
  pub to_interface : Option String
  pub state : Option String

pub data StpPathError : Type 0 where
  not_in_tree no_common_tree : StpPathError

-- What the function returns; `type_error` is an exception on `undefined`.
pub data StpPath : Type 0 where
  hops : List StpPathHop → StpPath
  error : StpPathError → StpPath
  type_error : StpPath

-- `new Map(tree.nodes.map((n) => [n.fqdn, n]))`
unfoldable pub index_nodes : List StpNode → Dict StpNode → Dict StpNode
index_nodes [] d = d
index_nodes (n ∷ ns) d = index_nodes ns (put n.fqdn n d)

-- `seen.has(fqdn)`, over the names added.
unfoldable pub seen_has : String → List String → Bool
seen_has k [] = false
seen_has k (x ∷ xs) = str_eq x k || seen_has k xs

-- `current.parent ? byFqdn.get(current.parent) : undefined`
unfoldable pub parent_node : Dict StpNode → StpNode → Option StpNode
parent_node by_fqdn n = elim n.parent [
  | none ↦ none
  | some p ↦ if str_eq p "" then none else get p by_fqdn
]

-- At most `fuel` rounds of the loop of `ancestors`.
unfoldable pub walk : Dict StpNode → ℕ → List String → Option StpNode → List StpNode
unfolding seen_has parent_node
walk by_fqdn zero seen current = []
walk by_fqdn (suc fuel) seen none = []
walk by_fqdn (suc fuel) seen (some n) =
    let rest = walk by_fqdn fuel (n.fqdn ∷ seen) (parent_node by_fqdn n) in
    if seen_has n.fqdn seen then [] else n ∷ rest

unfoldable pub ancestors : Dict StpNode → String → List StpNode
unfolding walk
ancestors by_fqdn start = walk by_fqdn (suc (length by_fqdn)) [] (get start by_fqdn)

-- `new Map(upTo.map((n, i) => [n.fqdn, i]))`, from the index `i` on.
unfoldable pub index_positions : ℕ → List StpNode → Dict ℕ → Dict ℕ
index_positions i [] d = d
index_positions i (n ∷ ns) d = index_positions (suc i) ns (put n.fqdn i d)

-- `upFrom.findIndex((n) => toIndex.has(n.fqdn))`, with `none` for -1.
unfoldable pub find_common : Dict ℕ → List StpNode → Option ℕ
find_common to_index [] = none
find_common to_index (n ∷ ns) =
    let later : Option ℕ = elim (find_common to_index ns) [ none ↦ none | some i ↦ some (suc i) ] in
    if has n.fqdn to_index then some 0 else later

abbrev pub up_hop : StpNode → StpPathHop
up_hop child = record {
  from = some child.fqdn;
  from_interface = child.root_port_interface_name;
  to = child.parent;
  to_interface = child.parent_interface;
  state = child.root_port_state;
}

abbrev pub down_hop : StpNode → StpPathHop
down_hop child = record {
  from = child.parent;
  from_interface = child.parent_interface;
  to = some child.fqdn;
  to_interface = child.root_port_interface_name;
  state = child.root_port_state;
}

-- The loop over `upFrom` below an index.
unfoldable pub climb : ℕ → List StpNode → List StpPathHop
climb zero chain = []
climb (suc i) [] = []
climb (suc i) (child ∷ chain) = up_hop child ∷ climb i chain

-- The loop over `upTo` from below an index down to 0.
unfoldable pub descend : ℕ → List StpNode → List StpPathHop
descend zero chain = []
descend (suc i) [] = []
descend (suc i) (child ∷ chain) = descend i chain ++ (down_hop child ∷ [])

unfoldable pub splice : List StpNode → List StpNode → StpPath
unfolding index_positions find_common climb descend
splice up_from up_to =
    let to_index = index_positions 0 up_to [] in
    elim (find_common to_index up_from) [
      | none ↦ error no_common_tree
      | some lca_in_from ↦ elim (get_elem? up_from lca_in_from) [
        | none ↦ type_error
        | some lca ↦ elim (get lca.fqdn to_index) [
          | none ↦ hops (climb lca_in_from up_from)
          | some lca_in_to ↦ hops (climb lca_in_from up_from ++ descend lca_in_to up_to)
        ]
      ]
    ]

unfoldable pub compute_stp_path : StpTree → String → String → StpPath
unfolding index_nodes ancestors splice
compute_stp_path tree from to =
    let by_fqdn = index_nodes tree.nodes [] in
    let path = splice (ancestors by_fqdn from) (ancestors by_fqdn to) in
    if not (has from by_fqdn) || not (has to by_fqdn) then error not_in_tree else path
