-- ===== src/Saga/Topology/Degrees.antt =====
-- What the graph building and the loop over one node's neighbours do to the in-degrees.
use pyfly.Common.{
  ℕ, zero, suc, ◌+◌, ◌-◌, ◌≤◌, String, ◌≡◌, refl, ◌∙◌, Option, none, some, List, [], ◌∷◌, ◌++◌,
  Dict, ℤ, pos, negsuc, increment, decrement, lookup, lookup_or, keys, length, count, count-append,
  lookup-insert, ◌==◌, str_eq, eq_iff, if◌then◌else◌, arith,
}
use pyfly.Saga.Topology.{Graph, modify, add_edge, add_edges, enqueue, relax}

abbrev pub map_value : (ℤ → ℤ) → Option ℤ → Option ℤ
map_value f none = none
map_value f (some v) = some (f v)

pub lookup-modify :
    (k j : String) (f : ℤ → ℤ) (d : Dict ℤ)
    → lookup j (modify k f d) ≡ (if str_eq k j then map_value f (lookup j d) else lookup j d)
unfolding lookup modify
lookup-modify k j f [] = ground arith
lookup-modify k j f ((i, v) ∷ d) =
    ground (arith, eq_iff k j, eq_iff i k, eq_iff i j, lookup-modify k j f d)

keys-modify : (k : String) (f : ℤ → ℤ) (d : Dict ℤ) → keys (modify k f d) ≡ keys d
unfolding keys modify
keys-modify k f [] = refl
keys-modify k f ((i, v) ∷ d) = ground (arith, keys-modify k f d)

-- The neighbours of `pred`.
abbrev pub neighbours : Graph → String → List String
neighbours g pred = lookup_or pred g.adjacency []

abbrev pub plus : ℕ → Option ℤ → Option ℤ
plus n none = none
plus n (some (pos k)) = some (pos (n + k))
plus n (some (negsuc k)) = some (negsuc k)

-- A degree that is not negative.
abbrev pub IsDegree : Option ℤ → Type 0
IsDegree (some (negsuc k)) = ⊥
IsDegree _ = Unit

count-add_edge :
    (node p pred v : String) (g : Graph)
    → count v (neighbours (add_edge node p g) pred)
      ≡ (if str_eq p pred then (if str_eq node v then 1 else 0) else 0)
        + count v (neighbours g pred)
unfolding count lookup_or add_edge
count-add_edge node p pred v g = ground (
  arith,
  lookup-insert p pred (lookup_or p g.adjacency [] ++ node ∷ []) g.adjacency,
  eq_iff p pred,
  count-append v (lookup_or p g.adjacency []) (node ∷ []),
)

pub count-add_edges :
    (node pred v : String) (preds : List String) (g : Graph)
    → count v (neighbours (add_edges node preds g) pred)
      ≡ (if str_eq node v then count pred preds else 0) + count v (neighbours g pred)
unfolding add_edges count
count-add_edges node pred v [] g = ground arith
count-add_edges node pred v (p ∷ preds) g =
    ground
      (arith, count-add_edges node pred v preds (add_edge node p g), count-add_edge node p pred v g)

pub lookup-add_edges :
    (node v : String) (preds : List String) (g : Graph)
    → IsDegree (lookup v g.in_degree)
    → lookup v (add_edges node preds g).in_degree
      ≡ (if str_eq node v then plus (length preds) (lookup v g.in_degree) else lookup v g.in_degree)
unfolding add_edges add_edge increment
lookup-add_edges node v [] g h = ground arith
lookup-add_edges node v (p ∷ preds) g h = ground (
  arith,
  lookup-add_edges node v preds (add_edge node p g),
  lookup-modify node v increment g.in_degree,
)

pub keys-add_edges :
    (node : String) (preds : List String) (g : Graph)
    → keys (add_edges node preds g).in_degree ≡ keys g.in_degree
unfolding add_edges add_edge
keys-add_edges node [] g = refl
keys-add_edges node (p ∷ preds) g =
    keys-add_edges node preds (add_edge node p g) ∙ keys-modify node increment g.in_degree

-- Where `deg` is at least the number of occurrences in the loop, it falls by that number, and the
-- node joins the queue once, exactly if it reaches zero in the loop.
pub relax-node :
    (l : List String) (v : String) (deg : Dict ℤ) (next_queue : List String) (k : ℕ)
    → lookup v deg ≡ some (pos k)
    → count v l ≤ k
    → (lookup v (relax l deg next_queue).0 ≡ some (pos (k - count v l)))
      × (count v (relax l deg next_queue).1
          ≡ count v next_queue + (if count v l == 0 then 0 else if count v l == k then 1 else 0))
unfolding relax count decrement
relax-node [] v deg next_queue k h le = ground arith
relax-node (n ∷ l) v deg next_queue zero h le =
    let deg' = modify n decrement deg in
    ground (
      arith,
      relax-node l v deg' (enqueue n deg' next_queue) zero,
      lookup-modify n v decrement deg,
      eq_iff n v,
      count-append v next_queue (n ∷ []),
    )
relax-node (n ∷ l) v deg next_queue (suc k) h le =
    let deg' = modify n decrement deg in
    ground (
      arith,
      relax-node l v deg' (enqueue n deg' next_queue) k,
      relax-node l v deg' (enqueue n deg' next_queue) (suc k),
      lookup-modify n v decrement deg,
      eq_iff n v,
      count-append v next_queue (n ∷ []),
    )

-- A text that is no node stays none, and never joins the queue.
pub relax-absent :
    (l : List String) (v : String) (deg : Dict ℤ) (next_queue : List String)
    → lookup v deg ≡ none
    → (lookup v (relax l deg next_queue).0 ≡ none)
      × (count v (relax l deg next_queue).1 ≡ count v next_queue)
unfolding relax count
relax-absent [] v deg next_queue h = ground arith
relax-absent (n ∷ l) v deg next_queue h =
    let deg' = modify n decrement deg in
    ground (
      arith,
      relax-absent l v deg' (enqueue n deg' next_queue),
      lookup-modify n v decrement deg,
      eq_iff n v,
      count-append v next_queue (n ∷ []),
    )
