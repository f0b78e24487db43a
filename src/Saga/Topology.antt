-- ===== src/Saga/Topology.antt =====
-- transactional/saga/engine/topology.py: execution layers by Kahn's algorithm.
-- `none` means that the fuel of the queue loop ran out; `compute_layers` gives it one round more
-- than there are steps.
mod Degrees
mod Building
mod Invariant
mod Rounds
pub mod Layers
mod Tests
use pyfly.Common.{
  ℕ, zero, suc, ◌+◌, String, Bool, true, false, Option, none, some, List, [], ◌∷◌, ◌++◌, Dict, ℤ,
  pos, negsuc, increment, decrement, lookup, lookup_or, insert, keys, sorted, length, ◌==◌, str_eq,
  if◌then◌else◌,
}

-- The `ValueError` of the cycle test carries both counts of its message.
pub data Layering : Type 0 where
  layered : List (List String) → Layering
  cyclic : (processed total : ℕ) → Layering

pub record Graph : Type 0 where
  pub adjacency : Dict (List String)
  pub in_degree : Dict ℤ

-- `in_degree[k] += 1` and `-= 1`. Every node is a key, so the KeyError of a missing one is not met.
unfoldable pub modify : String → (ℤ → ℤ) → Dict ℤ → Dict ℤ
modify k f [] = []
modify k f ((j, v) ∷ d) = if str_eq j k then (j, f v) ∷ d else (j, v) ∷ modify k f d

-- {node: 0 for node in deps}
unfoldable pub no_degrees : Dict (List String) → Dict ℤ
no_degrees [] = []
no_degrees ((node, preds) ∷ deps) = (node, pos zero) ∷ no_degrees deps

-- adjacency[pred].append(node); in_degree[node] += 1
unfoldable pub add_edge : String → String → Graph → Graph
unfolding lookup_or insert modify increment
add_edge node pred g = record {
  adjacency = insert pred (lookup_or pred g.adjacency [] ++ node ∷ []) g.adjacency;
  in_degree = modify node increment g.in_degree;
}

-- The inner loop over the predecessors of one node.
unfoldable pub add_edges : String → List String → Graph → Graph
unfolding add_edge
add_edges node [] g = g
add_edges node (pred ∷ preds) g = add_edges node preds (add_edge node pred g)

unfoldable pub add_nodes : Dict (List String) → Graph → Graph
unfolding add_edges
add_nodes [] g = g
add_nodes ((node, preds) ∷ deps) g = add_nodes deps (add_edges node preds g)

unfoldable pub build : Dict (List String) → Graph
unfolding add_nodes no_degrees
build deps = add_nodes deps (record { adjacency = []; in_degree = no_degrees deps })

abbrev pub is_zero : ℤ → Bool
is_zero (pos zero) = true
is_zero _ = false

abbrev pub at_zero : Option ℤ → Bool
at_zero none = false
at_zero (some deg) = is_zero deg

-- node for node, deg in in_degree.items() if deg == 0
unfoldable pub zero_nodes : Dict ℤ → List String
zero_nodes [] = []
zero_nodes ((node, deg) ∷ d) = let rest = zero_nodes d in if is_zero deg then node ∷ rest else rest

abbrev pub enqueue : String → Dict ℤ → List String → List String
unfolding lookup
enqueue node deg next_queue =
    if at_zero (lookup node deg) then next_queue ++ node ∷ [] else next_queue

-- The loop over `adjacency[node]`, on `in_degree` and `next_queue`.
unfoldable pub relax : List String → Dict ℤ → List String → Dict ℤ × List String
unfolding modify decrement lookup
relax [] deg next_queue = (deg, next_queue)
relax (neighbour ∷ rest) deg next_queue =
    let deg' = modify neighbour decrement deg in relax rest deg' (enqueue neighbour deg' next_queue)

-- The loop over the nodes of one layer.
unfoldable pub visit :
    Dict (List String) → List String → Dict ℤ → List String → Dict ℤ × List String
unfolding relax lookup_or
visit adjacency [] deg next_queue = (deg, next_queue)
visit adjacency (node ∷ layer) deg next_queue =
    let (deg', next_queue') = relax (lookup_or node adjacency []) deg next_queue in
    visit adjacency layer deg' next_queue'

-- `while queue`
unfoldable pub rounds :
    ℕ
    → Dict (List String)
    → Dict ℤ
    → List String
    → List (List String)
    → ℕ
    → Option (List (List String) × ℕ)
unfolding visit sorted
rounds zero adjacency deg queue layers processed = none
rounds (suc fuel) adjacency deg [] layers processed = some (layers, processed)
rounds (suc fuel) adjacency deg (q ∷ qs) layers processed =
    let layer = sorted (q ∷ qs) in
    let (deg', next_queue) = visit adjacency layer deg [] in
    rounds fuel adjacency deg' (sorted next_queue) (layers ++ layer ∷ []) (processed + length layer)

abbrev pub check_processed : ℕ → Option (List (List String) × ℕ) → Option Layering
check_processed total none = none
check_processed total (some (layers, processed)) =
    some (if processed == total then layered layers else cyclic processed total)

unfoldable pub compute_layers : Dict (List String) → Option Layering
unfolding rounds build zero_nodes
compute_layers [] = some (layered [])
compute_layers (d ∷ ds) =
    let deps = d ∷ ds in
    let g = build deps in
    check_processed (length deps)
      (rounds (suc (length deps)) g.adjacency g.in_degree (sorted (zero_nodes g.in_degree)) [] 0)
