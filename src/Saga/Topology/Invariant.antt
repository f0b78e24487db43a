-- ===== src/Saga/Topology/Invariant.antt =====
-- The invariant of the queue loop: every in-degree counts the dependencies that are not processed,
-- and a step is processed, in the layer or queued, once, exactly if all of its dependencies are
-- processed.
use pyfly.Common.{
  ℕ, ◌+◌, ◌≤◌, String, ◌≡◌, refl, Option, none, some, List, [], ◌∷◌, ◌++◌, Dict, ℤ, pos, lookup,
  lookup_or, keys, append_assoc, append-nil, length, count, count-append, ◌==◌, eq_iff,
  if◌then◌else◌, arith, Option-cases, inl, inr,
}
use pyfly.Saga.Topology.{build, relax, visit}
use pyfly.Saga.Topology.Degrees.{neighbours, relax-node, relax-absent}
use pyfly.Saga.Topology.Building.{count-build}

-- How many of the dependencies are not yet done.
unfoldable pub remaining : List String → List String → ℕ
remaining done [] = 0
remaining done (p ∷ preds) = (if count p done == 0 then 1 else 0) + remaining done preds

pub remaining-nil : (preds : List String) → remaining [] preds ≡ length preds
unfolding remaining count
remaining-nil [] = refl
remaining-nil (p ∷ preds) = omega (arith, remaining-nil preds)

remaining-snoc :
    (done : List String) (n : String) (preds : List String)
    → count n done ≡ 0
    → remaining done preds ≡ remaining (done ++ n ∷ []) preds + count n preds
unfolding remaining count
remaining-snoc done n [] h = refl
remaining-snoc done n (p ∷ preds) h =
    ground
      (arith, remaining-snoc done n preds, count-append p done (n ∷ []), eq_iff n p, eq_iff p n)

abbrev pub degree_left : List String → Option (List String) → Option ℤ
degree_left done none = none
degree_left done (some preds) = some (pos (remaining done preds))

abbrev pub ready : List String → Option (List String) → ℕ
ready done none = 0
ready done (some preds) = if remaining done preds == 0 then 1 else 0

module _ (deps : Dict (List String)) where
  abbrev pub At : String → List String → List String → List String → Dict ℤ → Type 0
  At v done layer next_queue deg =
      (lookup v deg ≡ degree_left done (lookup v deps))
      × (count v done + count v layer + count v next_queue ≡ ready done (lookup v deps))

  abbrev pub Inv : List String → List String → List String → Dict ℤ → Type 0
  Inv done layer next_queue deg = (v : String) → At v done layer next_queue deg

  module _ (once : (v : String) → count v (keys deps) ≤ 1) where
    abbrev next_of : String → List String
    next_of n = neighbours (build deps) n

    relax-At :
        (v n : String) (done layer next_queue : List String) (deg : Dict ℤ)
        → At v done (n ∷ layer) next_queue deg
        → count n done ≡ 0
        → At v
            (done ++ n ∷ [])
            layer
            (relax (next_of n) deg next_queue).1
            (relax (next_of n) deg next_queue).0
    unfolding count lookup_or
    relax-At v n done layer next_queue deg h fresh = elim (Option-cases (lookup v deps)) [
      | inl absent ↦
          ground (arith, relax-absent (next_of n) v deg next_queue, count-append v done (n ∷ []))
      | inr (preds, found) ↦ ground (
        arith,
        relax-node (next_of n) v deg next_queue (remaining done preds),
        count-build deps v (once v) n,
        remaining-snoc done n preds,
        eq_iff n v,
        count-append v done (n ∷ []),
      )
    ]

    -- A node of the layer is not done: it is discovered once.
    fresh :
        (n : String) (done layer next_queue : List String) (deg : Dict ℤ)
        → At n done (n ∷ layer) next_queue deg
        → count n done ≡ 0
    unfolding count
    fresh n done layer next_queue deg h = ground (arith, eq_iff n n)

    pub visit-Inv :
        (layer done next_queue : List String) (deg : Dict ℤ)
        → Inv done layer next_queue deg
        → Inv
            (done ++ layer)
            []
            (visit (build deps).adjacency layer deg next_queue).1
            (visit (build deps).adjacency layer deg next_queue).0
    unfolding visit
    visit-Inv [] done next_queue deg h = rw append-nil h
    visit-Inv (n ∷ layer) done next_queue deg h =
        let (deg', next_queue') = relax (next_of n) deg next_queue in
        let h' : Inv (done ++ n ∷ []) layer next_queue' deg' = λ v.
          relax-At v n done layer next_queue deg (h v) (fresh n done layer next_queue deg (h n)) in
        rw append_assoc at (visit-Inv layer (done ++ n ∷ []) next_queue' deg' h')
