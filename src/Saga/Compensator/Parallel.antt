-- ===== src/Saga/Compensator/Parallel.antt =====
-- The parallel policies: which compensations run, and that best effort never raises.
use pyfly.Common.{
  String, true, ◌≡◌, refl, sym, ◌∙◌, ap, List, [], ◌∷◌, ◌++◌, append_assoc, append-nil, inl, inr,
  Option-cases, All,
}
use pyfly.Common.Effects.{ok, World}
use pyfly.Saga.Definitions.{StepDefinition, SagaDefinition, best_effort_parallel}
use pyfly.Saga.Compensator.{
  Event, SagaCompensator, compensable, compensables, completed_of, compensate_one, gather_all,
  compensate,
}
use pyfly.Saga.Compensator.Invocations.{
  invocations, ids_of, compensable-has_method, compensate_one-Invokes,
}

abbrev AllHave : List StepDefinition → Type 0
AllHave = All (λ step_def. step_def.has_compensate_method ≡ true)

compensables-AllHave :
    (saga_def : SagaDefinition) (ids : List String) → AllHave (compensables saga_def ids)
unfolding compensables
compensables-AllHave saga_def [] = tt
compensables-AllHave saga_def (id ∷ ids) = elim (Option-cases (compensable saga_def id)) [
  | inl absent ↦ rw (absent, compensables) (compensables-AllHave saga_def ids)
  | inr (sd, found) ↦
      rw (found, compensables)
        (compensable-has_method saga_def id found, compensables-AllHave saga_def ids)
]

-- The compensations that the grouped policy runs, group by group.
abbrev pub group_ids : SagaDefinition → List String → List (List String) → List String
group_ids saga_def completed [] = []
group_ids saga_def completed (layer ∷ layers) =
    ids_of (compensables saga_def (completed_of completed layer))
    ++ group_ids saga_def completed layers

module _ {V : Type 0} (world : World Event V) (c : SagaCompensator) where
  invocations-gather_all :
      (steps : List StepDefinition) (h : List Event)
      → AllHave steps
      → invocations (gather_all world c steps h).1 ≡ invocations h ++ ids_of steps
  unfolding gather_all ids_of
  invocations-gather_all [] h all = sym (append-nil _)
  invocations-gather_all (sd ∷ steps) h all =
      let h' = (compensate_one world c sd h).1 in
      invocations-gather_all steps h' all.1
      ∙ ap (λ l. l ++ ids_of steps) ((compensate_one-Invokes world c sd all.0).at h)
      ∙ append_assoc _ (sd.id ∷ []) (ids_of steps)

  gather_all-ok :
      (steps : List StepDefinition) (h : List Event) → (gather_all world c steps h).0 ≡ ok tt
  unfolding gather_all
  gather_all-ok [] h = refl
  gather_all-ok (sd ∷ steps) h = gather_all-ok steps (compensate_one world c sd h).1

  module _ (saga_def : SagaDefinition) where
    -- Best effort runs every compensation of the completed steps once, in their order, whichever
    -- of them, of the events port and of the error handler raise, and never raises itself.
    pub best_effort_parallel-all :
        (completed : List String) (layers : List (List String))
        → ((compensate world c best_effort_parallel completed saga_def layers []).0 ≡ ok tt)
          × (invocations (compensate world c best_effort_parallel completed saga_def layers []).1
              ≡ ids_of (compensables saga_def completed))
    unfolding compensate
    best_effort_parallel-all [] layers = (refl, unfold invocations ids_of compensables in refl)
    best_effort_parallel-all (id ∷ ids) layers =
        let steps = compensables saga_def (id ∷ ids) in
        (
          gather_all-ok steps [],
          unfold invocations in
              invocations-gather_all steps [] (compensables-AllHave saga_def (id ∷ ids)),
        )
