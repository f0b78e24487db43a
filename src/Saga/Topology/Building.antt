-- ===== src/Saga/Topology/Building.antt =====
-- The graph that `compute_layers` builds: each dependency is an edge, and each step starts with as
-- many as it has.
use pyfly.Common.{
  ◌+◌, ◌≤◌, String, ◌≡◌, refl, ◌∙◌, Option, none, some, List, [], ◌∷◌, Dict, ℤ, pos, lookup,
  lookup_or, keys, length, count, lookup-of_count_zero, if◌then◌else◌, arith,
}
use pyfly.Saga.Topology.{Graph, no_degrees, add_edges, add_nodes, build, at_zero, zero_nodes}
use pyfly.Saga.Topology.Degrees.{
  neighbours, plus, IsDegree, count-add_edges, lookup-add_edges, keys-add_edges,
}

count-add_nodes :
    (deps : Dict (List String)) (pred v : String) (g : Graph)
    → count v (keys deps) ≤ 1
    → count v (neighbours (add_nodes deps g) pred)
      ≡ count pred (lookup_or v deps []) + count v (neighbours g pred)
unfolding add_nodes count keys lookup_or lookup
count-add_nodes [] pred v g h = ground arith
count-add_nodes ((node, preds) ∷ deps) pred v g h = ground (
  arith,
  count-add_nodes deps pred v (add_edges node preds g),
  count-add_edges node pred v preds g,
  lookup-of_count_zero v deps,
)

IsDegree-add_edges :
    (node v : String) (preds : List String) (g : Graph)
    → IsDegree (lookup v g.in_degree)
    → IsDegree (lookup v (add_edges node preds g).in_degree)
IsDegree-add_edges node v preds g h = ground (arith, lookup-add_edges node v preds g h)

lookup-add_nodes :
    (deps : Dict (List String)) (v : String) (g : Graph)
    → count v (keys deps) ≤ 1
    → IsDegree (lookup v g.in_degree)
    → lookup v (add_nodes deps g).in_degree
      ≡ plus (length (lookup_or v deps [])) (lookup v g.in_degree)
unfolding add_nodes count keys lookup_or lookup
lookup-add_nodes [] v g h d = ground arith
lookup-add_nodes ((node, preds) ∷ deps) v g h d = ground (
  arith,
  lookup-add_nodes deps v (add_edges node preds g),
  lookup-add_edges node v preds g d,
  lookup-of_count_zero v deps,
  IsDegree-add_edges node v preds g d,
)

abbrev pub degree_of : Option (List String) → Option ℤ
degree_of none = none
degree_of (some preds) = some (pos (length preds))

abbrev zero_of : Option (List String) → Option ℤ
zero_of none = none
zero_of (some preds) = some (pos 0)

lookup-no_degrees :
    (deps : Dict (List String)) (v : String) → lookup v (no_degrees deps) ≡ zero_of (lookup v deps)
unfolding no_degrees lookup
lookup-no_degrees [] v = refl
lookup-no_degrees ((node, preds) ∷ deps) v = ground (arith, lookup-no_degrees deps v)

keys-no_degrees : (deps : Dict (List String)) → keys (no_degrees deps) ≡ keys deps
unfolding no_degrees keys
keys-no_degrees [] = refl
keys-no_degrees ((node, preds) ∷ deps) = ground (arith, keys-no_degrees deps)

keys-add_nodes :
    (deps : Dict (List String)) (g : Graph) → keys (add_nodes deps g).in_degree ≡ keys g.in_degree
unfolding add_nodes
keys-add_nodes [] g = refl
keys-add_nodes ((node, preds) ∷ deps) g =
    keys-add_nodes deps (add_edges node preds g) ∙ keys-add_edges node preds g

module _ (deps : Dict (List String)) (v : String) (once : count v (keys deps) ≤ 1) where
  pub count-build :
      (pred : String) → count v (neighbours (build deps) pred) ≡ count pred (lookup_or v deps [])
  unfolding build count lookup_or lookup
  count-build pred = ground (
    arith,
    count-add_nodes deps pred v (record { adjacency = []; in_degree = no_degrees deps }) once,
  )

  pub lookup-build : lookup v (build deps).in_degree ≡ degree_of (lookup v deps)
  unfolding build lookup_or
  lookup-build = ground (
    arith,
    lookup-no_degrees deps v,
    lookup-add_nodes deps v (record { adjacency = []; in_degree = no_degrees deps }) once,
  )

  count-zero_nodes :
      (d : Dict ℤ)
      → count v (keys d) ≤ 1
      → count v (zero_nodes d) ≡ (if at_zero (lookup v d) then 1 else 0)
  unfolding zero_nodes keys count lookup
  count-zero_nodes [] h = refl
  count-zero_nodes ((node, deg) ∷ d) h =
      ground (arith, count-zero_nodes d, lookup-of_count_zero v d)

  pub count-first :
      count v (zero_nodes (build deps).in_degree)
      ≡ (if at_zero (degree_of (lookup v deps)) then 1 else 0)
  count-first = ground (arith, count-zero_nodes (build deps).in_degree, lookup-build, same)
    where
      same : keys (build deps).in_degree ≡ keys deps
      same = unfold build in keys-add_nodes deps _ ∙ keys-no_degrees deps
