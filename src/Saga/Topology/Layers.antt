-- ===== src/Saga/Topology/Layers.antt =====
-- `compute_layers` returns on every dict: the layers of an acyclic graph, and otherwise the error.
use pyfly.Common.{
  concat, ℕ, zero, suc, ◌<◌, String, ◌≡◌, ◌≢◌, refl, ap, sym, ◌∙◌, inl, inr, none, some, List, [],
  ◌∷◌, ◌++◌, Dict, IsDict, lookup, keys, sorted, IsSorted, count-sorted, length, length-keys, count,
  ◌==◌, eq_iff, if◌then◌else◌, count_of_full, IsWithin, length-le_of_within, lookup-none,
  Bool-cases, Option-cases, arith,
}
use pyfly.Saga.Topology.{
  Layering, layered, cyclic, build, zero_nodes, check_processed, compute_layers,
}
use pyfly.Saga.Topology.Building.{lookup-build, count-first}
use pyfly.Saga.Topology.Invariant.{remaining, remaining-nil, Inv}
use pyfly.Saga.Topology.Rounds.{Ordered, Closed, Closed-IsWithin, rounds-Result}

-- The verdict on the layers that the loop found.
abbrev verdict : ℕ → List (List String) → Layering
verdict total ls =
    if length (concat ls) == total then layered ls else cyclic (length (concat ls)) total

pub record Ran (deps : Dict (List String)) : Type 0 where
  pub layers : List (List String)
  pub returned : compute_layers deps ≡ some (verdict (length deps) layers)
  pub closed : Closed deps (concat layers)
  pub ordered : Ordered deps [] layers

Inv-start :
    (deps : Dict (List String))
    → IsDict deps
    → Inv deps [] (sorted (zero_nodes (build deps).in_degree)) [] (build deps).in_degree
unfolding count
Inv-start deps once v = elim (Option-cases (lookup v deps)) [
  | inl absent ↦ ground (
    arith,
    lookup-build deps v (once v),
    count-first deps v (once v),
    count-sorted v (zero_nodes (build deps).in_degree),
  )
  | inr (preds, found) ↦ ground (
    arith,
    lookup-build deps v (once v),
    count-first deps v (once v),
    count-sorted v (zero_nodes (build deps).in_degree),
    remaining-nil preds,
  )
]

pub compute_layers-Ran : (deps : Dict (List String)) → IsDict deps → Ran deps
unfolding compute_layers
compute_layers-Ran [] once = record {
  layers = [];
  returned = refl;
  closed = λ v. unfold lookup count in refl;
  ordered = tt;
}
compute_layers-Ran (d ∷ ds) once =
    let deps = d ∷ ds in
    let r =
      rounds-Result deps once (suc (length deps)) 0 (build deps).in_degree
        (sorted (zero_nodes (build deps).in_degree)) [] (Inv-start deps once) refl
        (omega (arith, length-keys deps)) in
    record {
      layers = r.more;
      returned = ap (check_processed (length deps)) r.returned;
      closed = r.closed;
      ordered = r.ordered;
    }

-- On every dict of dependencies the computation ends, with layers or with the cycle error.
pub compute_layers-ne-none : (deps : Dict (List String)) → IsDict deps → compute_layers deps ≢ none
compute_layers-ne-none deps once e = let r = compute_layers-Ran deps once in cc (r.returned, e)

module _ (deps : Dict (List String)) (ls : List (List String)) (once : IsDict deps)
    (ok : compute_layers deps ≡ some (layered ls)) where
  same_layers : (r : Ran deps) → (r.layers ≡ ls) × (length (concat r.layers) ≡ length deps)
  same_layers r = elim (Bool-cases (length (concat r.layers) == length deps)) [
    | inl full ↦ ground (arith, r.returned, ok)
    | inr short ↦ ground (arith, r.returned, ok)
  ]

  -- The layers hold every step of the saga exactly once, and nothing else.
  pub count-compute_layers : (k : String) → count k (concat ls) ≡ count k (keys deps)
  count-compute_layers k =
      let r = compute_layers-Ran deps once in
      let (same, full) = same_layers r in
      rw (← same) (
        count_of_full (concat r.layers) (keys deps) k (Closed-IsWithin deps _ r.closed)
          (full ∙ sym (length-keys deps)) (once k))

remaining-zero :
    (done preds : List String) (p : String)
    → remaining done preds ≡ 0
    → 0 < count p preds
    → 0 < count p done
unfolding remaining count
remaining-zero done [] p h some_p = absurd (omega arith)
remaining-zero done (q ∷ preds) p h some_p = ground (arith, remaining-zero done preds p, eq_iff q p)

-- Each layer is sorted, and a step's dependencies all stand in the layers before its own.
abbrev pub IsLayering : Dict (List String) → List String → List (List String) → Type 0
IsLayering deps seen [] = Unit
IsLayering deps seen (l ∷ ls) =
    IsSorted l
    × ((v p : String) (preds : List String)
        → 0 < count v l
        → lookup v deps ≡ some preds
        → 0 < count p preds
        → 0 < count p seen)
    × IsLayering deps (seen ++ l) ls

Ordered-IsLayering :
    (deps : Dict (List String)) (seen : List String) (ls : List (List String))
    → Ordered deps seen ls
    → IsLayering deps seen ls
Ordered-IsLayering deps seen [] h = tt
Ordered-IsLayering deps seen (l ∷ ls) h = (
  h.0,
  λ v p preds some_v found. remaining-zero seen preds p (h.1 v preds some_v found),
  Ordered-IsLayering deps (seen ++ l) ls h.2,
)

-- When layers are returned, each is sorted and has only steps whose dependencies all stand in the
-- layers before it.
pub compute_layers-IsLayering :
    (deps : Dict (List String)) (ls : List (List String))
    → IsDict deps
    → compute_layers deps ≡ some (layered ls)
    → IsLayering deps [] ls
compute_layers-IsLayering deps ls once ok =
    let r = compute_layers-Ran deps once in
    Ordered-IsLayering deps [] ls (rw (same_layers deps ls once ok r).0 at r.ordered)

-- No cycle and no unknown step: every dependency is a step, of a lower rank.
abbrev pub IsAcyclic : (String → ℕ) → Dict (List String) → Type 0
IsAcyclic rank deps =
    (v p : String) (preds : List String)
    → lookup v deps ≡ some preds
    → 0 < count p preds
    → (rank p < rank v) × (0 < count p (keys deps))

remaining-zero_of :
    (done preds : List String)
    → ((p : String) → 0 < count p preds → 0 < count p done)
    → remaining done preds ≡ 0
unfolding remaining count
remaining-zero_of done [] h = refl
remaining-zero_of done (q ∷ preds) h =
    ground (arith, h q, eq_iff q q, remaining-zero_of done preds (λ p some_p. h p (ground arith)))

module _ (deps : Dict (List String)) (rank : String → ℕ) (acyclic : IsAcyclic rank deps) where
  -- With every dependency done in turn, all steps are: by induction on the rank.
  all_done :
      (bound : ℕ) (done : List String) (v : String)
      → Closed deps done
      → rank v < bound
      → 0 < count v (keys deps)
      → count v done ≡ 1
  all_done zero done v closed low key = absurd (omega arith)
  all_done (suc bound) done v closed low key = elim (Option-cases (lookup v deps)) [
    | inl absent ↦ absurd (omega (arith, lookup-none v deps absent))
    | inr (preds, found) ↦
        let below : (p : String) → 0 < count p preds → 0 < count p done = λ p some_p.
          let (less, known) = acyclic v p preds found some_p in
          omega (arith, all_done bound done p closed (omega arith) known) in
        ground (arith, closed v, remaining-zero_of done preds below)
  ]

  IsWithin-done : (done : List String) → Closed deps done → IsDict deps → IsWithin (keys deps) done
  IsWithin-done done closed once v =
      (once v, λ absent. ground (arith, all_done (suc (rank v)) done v closed (omega arith)))

  -- A graph with no cycle whose dependencies are all steps is layered: no error is raised.
  pub compute_layers-acyclic :
      IsDict deps → (ls : List (List String)) × (compute_layers deps ≡ some (layered ls))
  compute_layers-acyclic once =
      let r = compute_layers-Ran deps once in
      let full : length (concat r.layers) ≡ length deps = omega (
        arith,
        length-keys deps,
        length-le_of_within _ _ (Closed-IsWithin deps _ r.closed),
        length-le_of_within _ _ (IsWithin-done (concat r.layers) r.closed once),
      ) in
      (r.layers, ground (arith, r.returned))
