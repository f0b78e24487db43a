-- ===== src/Saga/Topology/Rounds.antt =====
-- What the queue loop returns.
use pyfly.Common.{
  concat, ℕ, zero, suc, ◌+◌, ◌≤◌, ◌<◌, String, ◌≡◌, ap, some, List, [], ◌∷◌, ◌++◌, Dict, ℤ, lookup,
  keys, sorted, IsSorted, sorted-IsSorted, count-sorted, length-sorted, length-append, length,
  count, IsWithin, length-le_of_within, lookup-of_count_zero, append_assoc, append-nil, arith,
}
use pyfly.Saga.Topology.{build, visit, rounds}
use pyfly.Saga.Topology.Invariant.{remaining, ready, Inv, visit-Inv}

pub concat-snoc :
    (ls : List (List String)) (l : List String) → concat (ls ++ l ∷ []) ≡ concat ls ++ l
concat-snoc [] l = append-nil l
concat-snoc (x ∷ ls) l = rw (concat-snoc ls l, append_assoc)

module _ (deps : Dict (List String)) where
  -- Each layer is sorted, and its steps have all their dependencies in the layers before.
  abbrev pub Ordered : List String → List (List String) → Type 0
  Ordered seen [] = Unit
  Ordered seen (l ∷ ls) =
      IsSorted l
      × ((v : String) (preds : List String)
          → 0 < count v l
          → lookup v deps ≡ some preds
          → remaining seen preds ≡ 0)
      × Ordered (seen ++ l) ls

  -- What holds of the processed steps when the queue is empty.
  abbrev pub Closed : List String → Type 0
  Closed done = (v : String) → count v done ≡ ready done (lookup v deps)

  pub Closed-IsWithin : (done : List String) → Closed done → IsWithin done (keys deps)
  Closed-IsWithin done h v = ground (arith, h v, lookup-of_count_zero v deps)

  Inv-IsWithin :
      (done layer next_queue : List String) (deg : Dict ℤ)
      → Inv deps done layer next_queue deg
      → IsWithin done (keys deps)
  Inv-IsWithin done layer next_queue deg h v = ground (arith, h v, lookup-of_count_zero v deps)

  pub record Result (fuel processed : ℕ) (deg : Dict ℤ) (queue : List String)
      (layers : List (List String)) : Type 0 where
    pub more : List (List String)
    pub returned :
        rounds fuel (build deps).adjacency deg queue layers processed
        ≡ some (layers ++ more, length (concat (layers ++ more)))
    pub closed : Closed (concat (layers ++ more))
    pub ordered : Ordered (concat layers) more

  module _ (once : (v : String) → count v (keys deps) ≤ 1) where
    Inv-sorted :
        (done queue : List String) (deg : Dict ℤ)
        → Inv deps done queue [] deg
        → Inv deps done (sorted queue) [] deg
    Inv-sorted done queue deg h v = ground (arith, h v, count-sorted v queue)

    Inv-next :
        (done next_queue : List String) (deg : Dict ℤ)
        → Inv deps done [] next_queue deg
        → Inv deps done (sorted next_queue) [] deg
    unfolding count
    Inv-next done next_queue deg h v = ground (arith, h v, count-sorted v next_queue)

    layer_ready :
        (done layer : List String) (deg : Dict ℤ)
        → Inv deps done layer [] deg
        → (v : String) (preds : List String) → 0 < count v layer
        → lookup v deps ≡ some preds
        → remaining done preds ≡ 0
    unfolding count
    layer_ready done layer deg h v preds some_v found = ground (arith, h v)

    pub rounds-Result :
        (fuel processed : ℕ) (deg : Dict ℤ) (queue : List String) (layers : List (List String))
        → Inv deps (concat layers) queue [] deg
        → processed ≡ length (concat layers)
        → length (keys deps) < fuel + length (concat layers)
        → Result fuel processed deg queue layers
    unfolding rounds
    rounds-Result zero processed deg queue layers h e room =
        absurd
          (omega (arith, length-le_of_within _ _ (Inv-IsWithin (concat layers) queue [] deg h)))
    rounds-Result (suc fuel) processed deg [] layers h e room = record {
      more = [];
      returned = rw append-nil (rw e);
      closed = rw append-nil (λ v. unfold count in ground (arith, h v));
      ordered = tt;
    }
    rounds-Result (suc fuel) processed deg (q ∷ qs) layers h e room =
        let layer = sorted (q ∷ qs) in
        let (deg', next_queue) = visit (build deps).adjacency layer deg [] in
        let sorted_h : Inv deps (concat layers) layer [] deg =
          Inv-sorted (concat layers) (q ∷ qs) deg h in
        let longer = concat-snoc layers layer in
        let h' : Inv deps (concat layers ++ layer) (sorted next_queue) [] deg' =
          Inv-next (concat layers ++ layer) next_queue deg'
            (visit-Inv deps once layer (concat layers) [] deg sorted_h) in
        let rest : Result fuel (processed + length layer) deg' (sorted next_queue)
            (layers ++ layer ∷ []) =
          rounds-Result fuel (processed + length layer) deg' (sorted next_queue)
            (layers ++ layer ∷ []) (rw longer h')
            (ground (arith, e, ap length longer, length-append (concat layers) layer))
            (omega (
              arith,
              ap length longer,
              length-append (concat layers) layer,
              length-sorted (q ∷ qs),
            )) in
        record {
          more = layer ∷ rest.more;
          returned = rw append_assoc at rest.returned;
          closed = rw append_assoc at rest.closed;
          ordered = (
            sorted-IsSorted (q ∷ qs),
            layer_ready (concat layers) layer deg sorted_h,
            rw longer at rest.ordered,
          );
        }
