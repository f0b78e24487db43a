-- ===== src/Saga/Engine.antt =====
-- transactional/saga/engine/saga_engine.py: the execution of a saga, its compensation after a failure, and
-- the result. The run of the orchestrator is given by the state in which it has ended. What the ports
-- answer is the outside world's; the times and the identifier are left out.
pub mod Statuses
pub mod Undoing
use pyfly.Common.{
  ℕ, String, Bool, true, false, Option, none, some, List, [], ◌∷◌, ◌++◌, Dict, lookup, lookup_or,
  if◌then◌else◌,
}
use pyfly.Common.Effects.{
  Exception, value_error, Result, ok, err, is_ok, World, Act, pure, raise, perform, ◌>>=◌, ◌>>◌,
  when,
}
use pyfly.Saga.Definitions.{
  StepStatus, pending, running, done, failed, compensated, CompensationPolicy, StepDefinition,
  SagaDefinition,
}
use pyfly.Saga.Compensator
use pyfly.Saga.Compensator.{SagaCompensator, compensate}
use pyfly.Saga.Orchestrator.{Run, SagaContext}

-- The calls of the events port and of the persistence port.
pub data Event : Type 0 where
  on_start persist_state : Event
  on_completed mark_completed : (success : Bool) → Event

pub record SagaEngine : Type 0 where
  pub has_events_port : Bool
  pub has_persistence_port : Bool
  pub compensator : SagaCompensator

pub record StepOutcome (V : Type 0) : Type 0 where
  pub status : StepStatus
  pub attempts : ℕ
  pub result : Option V
  pub error : Option Exception

pub record SagaResult (V : Type 0) : Type 0 where
  pub success : Bool
  pub error : Option Exception
  pub steps : Dict (StepOutcome V)

abbrev pub is_done : StepStatus → Bool
is_done done = true
is_done _ = false

-- [step_id for step_id, status in ctx.step_statuses.items() if status == StepStatus.DONE]
unfoldable pub done_ids : Dict StepStatus → List String
done_ids [] = []
done_ids ((step_id, status) ∷ statuses) =
    let rest = done_ids statuses in if is_done status then step_id ∷ rest else rest

-- The status of a step that has failed, and no error where the saga succeeds.
abbrev error_of : Option Exception → StepStatus → Option Exception
error_of error failed = error
error_of error _ = none

abbrev pub exception_of : {A : Type 0} → Result A → Option Exception
exception_of (ok a) = none
exception_of (err e) = some e

module _ {V : Type 0} where
  abbrev step_outcome : SagaContext V → Option Exception → String → StepOutcome V
  unfolding lookup lookup_or
  step_outcome ctx error step_id =
      let status = lookup_or step_id ctx.step_statuses pending in
      record {
        status = status;
        attempts = lookup_or step_id ctx.step_attempts 0;
        result = lookup step_id ctx.step_results;
        error = error_of error status;
      }

  unfoldable pub step_outcomes :
      SagaContext V → Option Exception → Dict StepDefinition → Dict (StepOutcome V)
  unfolding step_outcome
  step_outcomes ctx error [] = []
  step_outcomes ctx error ((step_id, d) ∷ steps) =
      (step_id, step_outcome ctx error step_id) ∷ step_outcomes ctx error steps

  -- _build_result
  unfoldable pub build_result : SagaDefinition → SagaContext V → Result (List String) → SagaResult V
  unfolding step_outcomes
  build_result saga_def ctx outcome = record {
    success = is_ok outcome;
    error = exception_of outcome;
    steps = step_outcomes ctx (exception_of outcome) saga_def.steps;
  }

  -- What the compensator is called for, and the calls that it makes; what it raises is only logged.
  unfoldable pub compensation :
      World Compensator.Event V
      → SagaCompensator
      → CompensationPolicy
      → SagaDefinition
      → List (List String)
      → SagaContext V
      → Result (List String)
      → List Compensator.Event
  unfolding compensate done_ids
  compensation world c policy saga_def topology_layers ctx (ok completed) = []
  compensation world c policy saga_def topology_layers ctx (err e) =
      (compensate world c policy (done_ids ctx.step_statuses) saga_def topology_layers []).1

  module _ (world : World Event V) (engine : SagaEngine) where
    abbrev emit : Bool → Event → Act Event (Unit {0})
    emit has_port event = when has_port (do perform world event; pure tt)

    abbrev look_up : Option SagaDefinition → Act Event SagaDefinition
    look_up none = raise value_error
    look_up (some saga_def) = pure saga_def

    -- `execute`, for the saga that the registry holds under the name, if any.
    unfoldable pub execute :
        Option SagaDefinition → SagaContext V → Result (List String) → Act Event (SagaResult V)
    unfolding build_result
    execute registered ctx outcome = do
      saga_def ← look_up registered
      emit engine.has_events_port on_start
      emit engine.has_persistence_port persist_state
      emit engine.has_events_port (on_completed (is_ok outcome))
      emit engine.has_persistence_port (mark_completed (is_ok outcome))
      pure (build_result saga_def ctx outcome)
