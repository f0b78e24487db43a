-- ===== src/Saga/Orchestrator/Order.antt =====
-- Which steps have begun and which are done, in every state of an execution.
use pyfly.Common.{
  zero-cases, concat, ◌+◌, ◌<◌, String, true, ◌≡◌, refl, ap, inl, inr, none, some, List, [], ◌∷◌,
  ◌++◌, IsDict, lookup, keys, count, count-append, Option-cases, arith, subst,
}
use pyfly.Common.Effects.{Exception, ok, err}
use pyfly.Saga.Definitions.{StepStatus, SagaDefinition}
use pyfly.Saga.Topology.Layers.{IsLayering, compute_layers-IsLayering, count-compute_layers}
use pyfly.Saga.Topology.{compute_layers, layered}
use pyfly.Saga.Orchestrator.Turns.{IsComplete, IsBacked, Turn-IsTurn}
use pyfly.Saga.Orchestrator.{
  Run, dependencies, create, all_returned, stop, stop_all, Step, open_layer, turn, raise_first,
  finish, initial, Reach, begin, next,
}
use pyfly.Saga.Orchestrator.Invariant.{
  IsOrdered, returned_of, lookup-stop_all, is_waiting, create-tasked, returned-IsComplete,
  IsBacked-stop, IsTurn-IsOrdered,
}

module _ {V : Type 0} where
  initial-IsOrdered :
      (saga_def : SagaDefinition) (layers : List (List String))
      → IsDict (dependencies saga_def.steps)
      → compute_layers (dependencies saga_def.steps) ≡ some (layered layers)
      → IsOrdered saga_def (initial {V = V} saga_def layers)
  unfolding initial lookup count
  initial-IsOrdered saga_def layers once ok_layers = record {
    once = λ k. (
      ground (arith, count-compute_layers (dependencies saga_def.steps) layers once ok_layers k),
      once k,
    );
    ahead = compute_layers-IsLayering (dependencies saga_def.steps) layers once ok_layers;
    behind = λ k p preds began. ground arith;
    tasked = λ k. (λ _. refl, λ _. refl);
    backed = λ k t found. cc;
    over = λ k began. ground arith;
    begun = λ k s found. cc;
    ended = λ ids e. cc;
  }

  module _ (saga_def : SagaDefinition) (r : Run V) (inv : IsOrdered saga_def r) where
    all_returned-IsComplete :
        all_returned r.tasks ≡ true
        → (k : String) → 0 < count k r.ran + count k r.layer
        → IsComplete r k
    all_returned-IsComplete all k began = elim (Option-cases (lookup k r.tasks)) [
      | inl no_task ↦ inv.over k (ground (arith, inv.tasked k))
      | inr (t, found) ↦
          returned-IsComplete r k t (returned_of k t r.tasks all found) (inv.backed k t found)
    ]

    abbrev opened : List String → List (List String) → Run V
    opened l ls = record r { ran = r.ran ++ r.layer; layer = l; layers = ls; tasks = create l [] }

    open_layer-IsOrdered :
        (l : List String) (ls : List (List String))
        → all_returned r.tasks ≡ true
        → r.layers ≡ l ∷ ls
        → r.outcome ≡ none
        → IsOrdered saga_def (opened l ls)
    open_layer-IsOrdered l ls all rest unfinished =
        let ahead : IsLayering (dependencies saga_def.steps) (r.ran ++ r.layer) (l ∷ ls) =
          rw rest at inv.ahead in
        record {
          once = λ k. ground (
            arith,
            inv.once k,
            count-append k r.ran r.layer,
            count-append k l (concat ls),
            ap (λ x. count k (concat x)) rest,
          );
          ahead = ahead.2;
          behind = λ k p preds began some_k found. elim (zero-cases (count k l)) [
            | inl none_there ↦ ground (
              arith,
              count-append k r.ran r.layer,
              count-append p r.ran r.layer,
              inv.behind k p preds,
            )
            | inr there ↦ ahead.1 k p preds there some_k found
          ];
          tasked = λ k. create-tasked k l;
          backed = λ k t found. subst (λ x. IsBacked (opened l ls) k x) (is_waiting k t l found) tt;
          over = λ k began.
              all_returned-IsComplete all k (ground (arith, count-append k r.ran r.layer));
          begun = λ k s found. ground (arith, inv.begun k s found, count-append k r.ran r.layer);
          ended = λ ids e. ground arith;
        }

    raise_first-IsOrdered :
        (e : Exception)
        → IsOrdered saga_def (record r { tasks = stop_all r.tasks; outcome = some (err e) })
    raise_first-IsOrdered e = record {
      once = inv.once;
      ahead = inv.ahead;
      behind = inv.behind;
      tasked = λ k. ground (arith, inv.tasked k, lookup-stop_all k r.tasks);
      backed = λ k t found. elim (Option-cases (lookup k r.tasks)) [
        | inl no_task ↦ ground (arith, lookup-stop_all k r.tasks)
        | inr (u, was) ↦
            let is : stop u ≡ t = ground (arith, lookup-stop_all k r.tasks) in
            subst
              (λ x. IsBacked (record r { tasks = stop_all r.tasks; outcome = some (err e) }) k x) is
              (IsBacked-stop r (stop_all r.tasks) (some (err e)) k u (inv.backed k u was))
      ];
      over = inv.over;
      begun = inv.begun;
      ended = λ ids e. ground arith;
    }

    finish-IsOrdered :
        all_returned r.tasks ≡ true
        → r.layers ≡ []
        → IsOrdered saga_def (record r { outcome = some (ok r.completed_step_ids) })
    unfolding count
    finish-IsOrdered all rest = record {
      once = inv.once;
      ahead = inv.ahead;
      behind = inv.behind;
      tasked = inv.tasked;
      backed = inv.backed;
      over = inv.over;
      begun = inv.begun;
      ended = λ ids e. (
        cc,
        λ k listed.
            all_returned-IsComplete all k
              (ground (arith, inv.once k, ap (λ x. count k (concat x)) rest)),
      );
    }

    Step-IsOrdered : (r' : Run V) → r.outcome ≡ none → Step saga_def r r' → IsOrdered saga_def r'
    Step-IsOrdered r' unfinished (open_layer l ls all rest) =
        open_layer-IsOrdered l ls all rest unfinished
    Step-IsOrdered r' unfinished (turn d t r'' registered found taken) =
        IsTurn-IsOrdered saga_def d.id t r r' found
          (Turn-IsTurn d r r' t (inv.backed d.id t found) taken) inv unfinished
    Step-IsOrdered r' unfinished (raise_first id e found) = raise_first-IsOrdered e
    Step-IsOrdered r' unfinished (finish all rest) = finish-IsOrdered all rest

  Reach-IsOrdered :
      {saga_def : SagaDefinition} {r : Run V}
      → IsDict (dependencies saga_def.steps)
      → Reach saga_def r
      → IsOrdered saga_def r
  Reach-IsOrdered once (begin layers ok_layers) = initial-IsOrdered _ layers once ok_layers
  Reach-IsOrdered once (next reached unfinished step) =
      Step-IsOrdered _ _ (Reach-IsOrdered once reached) _ unfinished step

  -- Whatever the order of the tasks' turns and whatever raises, a step whose execution has begun has
  -- only dependencies that are DONE and in the list of the completed steps.
  pub Reach-begun :
      (saga_def : SagaDefinition) (r : Run V)
      → IsDict (dependencies saga_def.steps)
      → Reach saga_def r
      → (k p : String) (preds : List String) (s : StepStatus)
      → lookup k r.ctx.step_statuses ≡ some s
      → lookup k (dependencies saga_def.steps) ≡ some preds
      → 0 < count p preds
      → IsComplete r p
  Reach-begun saga_def r once reached k p preds s is_s is_k found =
      let inv = Reach-IsOrdered once reached in
      inv.over p (inv.behind k p preds (inv.begun k s is_s) is_k found)

  -- Where the execution returns, every step of the saga is DONE and in the list that it returns.
  pub Reach-returned :
      (saga_def : SagaDefinition) (r : Run V) (ids : List String)
      → IsDict (dependencies saga_def.steps)
      → Reach saga_def r
      → r.outcome ≡ some (ok ids)
      → (ids ≡ r.completed_step_ids)
        × ((k : String) → 0 < count k (keys (dependencies saga_def.steps)) → IsComplete r k)
  Reach-returned saga_def r ids once reached = (Reach-IsOrdered once reached).ended ids
