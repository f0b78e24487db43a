-- ===== src/Saga/Orchestrator/Invariant.antt =====
-- What every state of an execution satisfies: how steps begun, tasks and
-- completed steps belong together; a task's turn keeps it.
use pyfly.Common.{
  zero-cases, concat, ◌+◌, ◌≤◌, ◌<◌, String, true, false, ◌≡◌, refl, sym, ap, ◌∙◌, ◌↔◌, inl, inr,
  Option, none, some, List, [], ◌∷◌, ◌++◌, Dict, lookup, insert, keys, count, lookup-insert, str_eq,
  str_eq-cases, arith, subst,
}
use pyfly.Common.Effects.{Result, ok}
use pyfly.Saga.Definitions.{StepStatus, SagaDefinition}
use pyfly.Saga.Topology.Layers.{IsLayering}
use pyfly.Saga.Orchestrator.Turns.{IsComplete, IsBacked, IsTurn}
use pyfly.Saga.Orchestrator.{
  Task, waiting, returned, cancelled, invoking, reporting_success, sleeping, reporting_failure,
  raised, Run, dependencies, create, has_returned, all_returned, stop, stop_all,
}

lookup-create :
    (k : String) (l : List String) (d : Dict Task)
    → (count k l ≡ 0 → lookup k (create l d) ≡ lookup k d)
      × (0 < count k l → lookup k (create l d) ≡ some waiting)
      × (lookup k d ≡ some waiting → lookup k (create l d) ≡ some waiting)
unfolding create count
lookup-create k [] d = (λ _. refl, λ p. ground arith, λ h. h)
lookup-create k (x ∷ l) d =
    ground (arith, lookup-create k l (insert x waiting d), lookup-insert x k waiting d)

pub returned_of :
    (k : String) (t : Task) (d : Dict Task)
    → all_returned d ≡ true
    → lookup k d ≡ some t
    → has_returned t ≡ true
unfolding all_returned lookup
returned_of k t ((j, u) ∷ d) h found = ground (arith, returned_of k t d)
returned_of k t [] h found = cc

pub lookup-stop_all :
    (k : String) (d : Dict Task)
    → lookup k (stop_all d) ≡ elim (lookup k d) [ none ↦ none | some t ↦ some (stop t) ]
unfolding stop_all lookup
lookup-stop_all k [] = refl
lookup-stop_all k ((j, u) ∷ d) = ground (arith, lookup-stop_all k d)

pub is_waiting :
    (k : String) (t : Task) (l : List String) → lookup k (create l []) ≡ some t → waiting ≡ t
unfolding lookup
is_waiting k t l found = elim (zero-cases (count k l)) [
  | inl z ↦ ground (arith, lookup-create k l [])
  | inr there ↦ ground (arith, lookup-create k l [])
]

pub create-tasked : (k : String) (l : List String) → lookup k (create l []) ≡ none ↔ count k l ≡ 0
unfolding lookup
create-tasked k l = ground (arith, lookup-create k l [], zero-cases (count k l))

module _ {V : Type 0} where
  pub record IsOrdered (saga_def : SagaDefinition) (r : Run V) : Type 0 where
    pub once :
        (k : String)
        → (count k r.ran + count k r.layer + count k (concat r.layers)
            ≡ count k (keys (dependencies saga_def.steps)))
          × (count k (keys (dependencies saga_def.steps)) ≤ 1)
    pub ahead : IsLayering (dependencies saga_def.steps) (r.ran ++ r.layer) r.layers
    pub behind :
        (k p : String) (preds : List String)
        → 0 < count k r.ran + count k r.layer
        → lookup k (dependencies saga_def.steps) ≡ some preds
        → 0 < count p preds
        → 0 < count p r.ran
    pub tasked : (k : String) → lookup k r.tasks ≡ none ↔ count k r.layer ≡ 0
    pub backed : (k : String) (t : Task) → lookup k r.tasks ≡ some t → IsBacked r k t
    pub over : (k : String) → 0 < count k r.ran → IsComplete r k
    pub begun :
        (k : String) (s : StepStatus)
        → lookup k r.ctx.step_statuses ≡ some s
        → 0 < count k r.ran + count k r.layer
    pub ended :
        (ids : List String)
        → r.outcome ≡ some (ok ids)
        → (ids ≡ r.completed_step_ids)
          × ((k : String) → 0 < count k (keys (dependencies saga_def.steps)) → IsComplete r k)

  IsBacked-mono :
      (r r' : Run V) (k : String) (t : Task)
      → lookup k r'.ctx.step_statuses ≡ lookup k r.ctx.step_statuses
      → count k r.completed_step_ids ≤ count k r'.completed_step_ids
      → IsBacked r k t
      → IsBacked r' k t
  IsBacked-mono r r' k returned same more (is_done, listed) = (same ∙ is_done, omega arith)
  IsBacked-mono r r' k (reporting_success a b) same more is_done = same ∙ is_done
  IsBacked-mono r r' k waiting same more h = tt
  IsBacked-mono r r' k cancelled same more h = tt
  IsBacked-mono r r' k (invoking a b) same more h = tt
  IsBacked-mono r r' k (sleeping a b) same more h = tt
  IsBacked-mono r r' k (reporting_failure e) same more h = tt
  IsBacked-mono r r' k (raised e) same more h = tt

  pub returned-IsComplete :
      (r : Run V) (k : String) (t : Task) → has_returned t ≡ true → IsBacked r k t → IsComplete r k
  returned-IsComplete r k returned h b = b
  returned-IsComplete r k waiting h b = cc
  returned-IsComplete r k cancelled h b = cc
  returned-IsComplete r k (invoking a w) h b = cc
  returned-IsComplete r k (reporting_success a w) h b = cc
  returned-IsComplete r k (sleeping a w) h b = cc
  returned-IsComplete r k (reporting_failure e) h b = cc
  returned-IsComplete r k (raised e) h b = cc

  pub IsBacked-stop :
      (r : Run V) (tasks : Dict Task) (outcome : Option (Result (List String))) (k : String)
      (t : Task)
      → IsBacked r k t
      → IsBacked (record r { tasks = tasks; outcome = outcome }) k (stop t)
  IsBacked-stop r tasks outcome k returned b = b
  IsBacked-stop r tasks outcome k waiting b = tt
  IsBacked-stop r tasks outcome k cancelled b = tt
  IsBacked-stop r tasks outcome k (invoking a w) b = tt
  IsBacked-stop r tasks outcome k (reporting_success a w) b = tt
  IsBacked-stop r tasks outcome k (sleeping a w) b = tt
  IsBacked-stop r tasks outcome k (reporting_failure e) b = tt
  IsBacked-stop r tasks outcome k (raised e) b = tt

  module _ (saga_def : SagaDefinition) (id : String) (t : Task) (r r' : Run V)
      (found : lookup id r.tasks ≡ some t) (changed : IsTurn id r r')
      (inv : IsOrdered saga_def r) where
    in_layer : 0 < count id r.layer
    in_layer = ground (arith, inv.tasked id)

    apart : (k : String) → 0 < count k r.ran → str_eq id k ≡ false
    apart k behind = elim (str_eq-cases id k) [
      | inl (same, _) ↦
          ground (arith, in_layer, (inv.once k).0, (inv.once k).1, ap (λ x. count x r.layer) same)
      | inr (_, differ) ↦ differ
    ]

    turned-IsBacked : (k : String) (u : Task) → lookup k r'.tasks ≡ some u → IsBacked r' k u
    turned-IsBacked k u is_u = elim (str_eq-cases id k) [
      | inl (same, test) ↦
          let is : changed.task ≡ u =
            ground (arith, is_u, changed.tasks, lookup-insert id k changed.task r.tasks, test) in
          subst (λ x. IsBacked r' x u) same (subst (λ v. IsBacked r' id v) is changed.is_backed)
      | inr (_, differ) ↦
          IsBacked-mono r r' k u (changed.statuses k differ) (changed.completed k) (
            inv.backed k u (ground (arith, changed.tasks, lookup-insert id k changed.task r.tasks)))
    ]

    turned-tasked : (k : String) → lookup k r'.tasks ≡ none ↔ count k r'.layer ≡ 0
    turned-tasked k = elim (str_eq-cases id k) [
      | inl (same, test) ↦ ground (
        arith,
        in_layer,
        changed.same_layer,
        changed.tasks,
        lookup-insert id k changed.task r.tasks,
        test,
        ap (λ x. count x r.layer) same,
      )
      | inr (_, differ) ↦ ground (
        arith,
        inv.tasked k,
        changed.same_layer,
        changed.tasks,
        lookup-insert id k changed.task r.tasks,
        differ,
      )
    ]

    turned-begun :
        (k : String) (s : StepStatus)
        → lookup k r'.ctx.step_statuses ≡ some s
        → 0 < count k r'.ran + count k r'.layer
    turned-begun k s is_s = elim (str_eq-cases id k) [
      | inl (same, _) ↦ ground (arith, in_layer, changed.same_layer, ap (λ x. count x r.layer) same)
      | inr (_, differ) ↦ ground (
        arith,
        inv.begun k s (sym (changed.statuses k differ) ∙ is_s),
        changed.same_ran,
        changed.same_layer,
      )
    ]

    pub IsTurn-IsOrdered : r.outcome ≡ none → IsOrdered saga_def r'
    IsTurn-IsOrdered unfinished = record {
      once = λ k.
          ground (arith, inv.once k, changed.same_ran, changed.same_layer, changed.same_layers);
      ahead =
          rw (sym changed.same_ran, sym changed.same_layer, sym changed.same_layers) at inv.ahead;
      behind = rw (sym changed.same_ran, sym changed.same_layer) at inv.behind;
      tasked = turned-tasked;
      backed = turned-IsBacked;
      over = λ k behind.
          let was : 0 < count k r.ran = ground (arith, changed.same_ran) in
          let differ = apart k was in
          (
            changed.statuses k differ ∙ (inv.over k was).0,
            ground (arith, changed.completed k, (inv.over k was).1),
          );
      begun = turned-begun;
      ended = λ ids e. ground (arith, changed.same_outcome);
    }
