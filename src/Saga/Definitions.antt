-- ===== src/Saga/Definitions.antt =====
-- transactional/shared/types.py and saga/registry: what a saga is made of. A method is there or
-- `None`, and running it is an event. Durations are in milliseconds.
use pyfly.Common.{ℕ, String, Bool, Option, List, Dict}

pub data StepStatus : Type 0 where
  pending running done failed compensated : StepStatus

pub data CompensationPolicy : Type 0 where
  strict_sequential grouped_parallel retry_with_backoff circuit_breaker best_effort_parallel :
      CompensationPolicy

pub record StepDefinition : Type 0 where
  pub id : String
  pub has_step_method : Bool
  pub has_compensate_method : Bool
  pub depends_on : List String
  pub retry : ℕ
  pub backoff_ms : ℕ
  pub timeout_ms : ℕ
  pub compensation_retry : Option ℕ
  pub compensation_backoff_ms : Option ℕ

pub record SagaDefinition : Type 0 where
  pub name : String
  pub steps : Dict StepDefinition
  pub layer_concurrency : ℕ
