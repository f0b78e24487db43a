-- ===== src/Saga/Engine/Undoing.antt =====
-- transactional/saga/engine: the order in which a failed saga is undone.
use mathlib.Core.List.{reverse_aux}
use pyfly.Common.{
  String, true, false, ◌≡◌, sym, subst, inl, inr, some, List, [], ◌∷◌, ◌++◌, reverse, Dict, IsDict,
  lookup, keys, All, Option-cases, arith, if◌then◌else◌,
}
use pyfly.Common.Effects.{Exception, err, World}
use pyfly.Saga.Definitions.{StepStatus, StepDefinition, SagaDefinition, strict_sequential}
use pyfly.Saga.Compensator
use pyfly.Saga.Compensator.{SagaCompensator, compensable, compensables}
use pyfly.Saga.Compensator.Invocations.{invocations, ids_of}
use pyfly.Saga.Compensator.Policies.{strict_sequential-prefix}
use pyfly.Saga.Orchestrator.{Run, Reach, dependencies}
use pyfly.Saga.Engine.{done_ids, is_done, compensation}
use pyfly.Saga.Engine.Statuses.{Pairwise, IsFree, Reach-Pairwise}

module _ (R : String → String → Type 0) where
  both-All :
      (P Q : String → Type 0) (xs : List String) → All P xs → All Q xs → All (λ x. P x × Q x) xs
  both-All P Q [] ps qs = tt
  both-All P Q (x ∷ xs) (p, ps) (q, qs) = ((p, q), both-All P Q xs ps qs)

  none-All : (xs : List String) → All (λ x. Unit {0}) xs
  none-All [] = tt
  none-All (x ∷ xs) = (tt, none-All xs)

  All-first : (P : String → Type 0) (xs ys : List String) → All P (xs ++ ys) → All P xs
  All-first P [] ys each = tt
  All-first P (x ∷ xs) ys (p, ps) = (p, All-first P xs ys ps)

  reverse_aux-Pairwise :
      (xs acc : List String)
      → Pairwise R xs
      → Pairwise (λ x y. R y x) acc
      → All (λ x. All (λ y. R y x) acc) xs
      → Pairwise (λ x y. R y x) (reverse_aux xs acc)
  unfolding Pairwise
  reverse_aux-Pairwise [] acc pairs backward across = backward
  reverse_aux-Pairwise (x ∷ xs) acc (first, pairs) backward (behind, across) =
      reverse_aux-Pairwise xs (x ∷ acc) pairs (behind, backward)
        (both-All (R x) (λ y. All (λ z. R z y) acc) xs first across)

  reverse-Pairwise : (xs : List String) → Pairwise R xs → Pairwise (λ x y. R y x) (reverse xs)
  unfolding Pairwise
  reverse-Pairwise xs pairs = reverse_aux-Pairwise xs [] pairs tt (none-All xs)

  Pairwise-first : (xs ys : List String) → Pairwise R (xs ++ ys) → Pairwise R xs
  unfolding Pairwise
  Pairwise-first [] ys pairs = tt
  Pairwise-first (x ∷ xs) ys (first, pairs) =
      (All-first (R x) xs ys first, Pairwise-first xs ys pairs)

  done_ids-All :
      (P : String → Type 0) (statuses : Dict StepStatus)
      → All P (keys statuses)
      → All P (done_ids statuses)
  unfolding done_ids keys
  done_ids-All P [] each = tt
  done_ids-All P ((id, status) ∷ statuses) (first, each) =
      elim (is_done status)
        as (λ b. All P (if b then id ∷ done_ids statuses else done_ids statuses)) [
          | true ↦ (first, done_ids-All P statuses each)
          | false ↦ done_ids-All P statuses each
        ]

  done_ids-Pairwise :
      (statuses : Dict StepStatus) → Pairwise R (keys statuses) → Pairwise R (done_ids statuses)
  unfolding done_ids keys Pairwise
  done_ids-Pairwise [] pairs = tt
  done_ids-Pairwise ((id, status) ∷ statuses) (first, pairs) =
      elim (is_done status)
        as (λ b. Pairwise R (if b then id ∷ done_ids statuses else done_ids statuses)) [
          | true ↦ (done_ids-All (R id) statuses first, done_ids-Pairwise statuses pairs)
          | false ↦ done_ids-Pairwise statuses pairs
        ]

  -- The registry files each step under its own id.
  module _ (saga_def : SagaDefinition)
      (filed : (k : String) (d : StepDefinition)
        → lookup k saga_def.steps ≡ some d
        → d.id ≡ k) where
    compensable-id : (k : String) (d : StepDefinition) → compensable saga_def k ≡ some d → d.id ≡ k
    unfolding compensable
    compensable-id k d found = elim (Option-cases (lookup k saga_def.steps)) [
      | inl missing ↦ ground arith
      | inr (e, is) ↦ ground (arith, filed k e is)
    ]

    compensables-All :
        (P : String → Type 0) (ids : List String)
        → All P ids
        → All P (ids_of (compensables saga_def ids))
    unfolding compensables ids_of
    compensables-All P [] each = tt
    compensables-All P (id ∷ ids) (first, each) = elim (Option-cases (compensable saga_def id)) [
      | inl absent ↦ rw (absent, compensables) (compensables-All P ids each)
      | inr (d, found) ↦
          rw (found, compensables)
            (subst P (sym (compensable-id id d found)) first, compensables-All P ids each)
    ]

    compensables-Pairwise :
        (ids : List String) → Pairwise R ids → Pairwise R (ids_of (compensables saga_def ids))
    unfolding compensables ids_of Pairwise
    compensables-Pairwise [] pairs = tt
    compensables-Pairwise (id ∷ ids) (first, pairs) =
        elim (Option-cases (compensable saga_def id)) [
          | inl absent ↦ rw (absent, compensables) (compensables-Pairwise ids pairs)
          | inr (d, found) ↦
              rw (found, compensables)
                (
                  subst (λ x. All (R x) (ids_of (compensables saga_def ids)))
                      (sym (compensable-id id d found)) (compensables-All (R id) ids first),
                  compensables-Pairwise ids pairs,
                )
        ]

module _ {V : Type 0} (world : World Compensator.Event V) (c : SagaCompensator)
    (saga_def : SagaDefinition) where
  -- After a failure of its steps, in whatever order their tasks took turns, a saga with the sequential
  -- policy is undone against the dependencies: no compensation is run after that of a step which it
  -- depends on. Each step stands once in the saga, under its own id.
  pub compensation-Pairwise :
      IsDict (dependencies saga_def.steps)
      → ((k : String) (d : StepDefinition) → lookup k saga_def.steps ≡ some d → d.id ≡ k)
      → (r : Run V) (layers : List (List String)) (e : Exception) → Reach saga_def r
      → Pairwise
          (λ p k. IsFree saga_def k p)
          (invocations (compensation world c strict_sequential saga_def layers r.ctx (err e)))
  unfolding compensation invocations
  compensation-Pairwise once filed r layers e reached =
      let statuses = r.ctx.step_statuses in
      let invoked = strict_sequential-prefix world c saga_def (done_ids statuses) layers in
      let finished =
        done_ids-Pairwise (IsFree saga_def) statuses (Reach-Pairwise saga_def once r reached) in
      let listed =
        compensables-Pairwise (λ x y. IsFree saga_def y x) saga_def filed
          (reverse (done_ids statuses))
          (reverse-Pairwise (IsFree saga_def) (done_ids statuses) finished) in
      subst (Pairwise (λ x y. IsFree saga_def y x)) (sym invoked.order) (
        Pairwise-first (λ x y. IsFree saga_def y x) invoked.made invoked.skipped
          (subst (Pairwise (λ x y. IsFree saga_def y x)) invoked.split listed))
