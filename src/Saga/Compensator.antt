-- ===== src/Saga/Compensator.antt =====
-- transactional/saga/engine/compensator.py, with `invoke_compensation` of step_invoker.py.
-- The tasks of one `asyncio.gather` run one after another here, each to its end: of the orders in
-- which the loop may run them, that of the list.
pub mod Invocations
pub mod Policies
pub mod Parallel
pub mod Retries
pub mod Breaker
mod Rows
mod Tests
use pyfly.Common.{
  ℕ, zero, suc, ◌+◌, ◌-◌, ◌*◌, ◌^◌, String, Bool, true, false, not, Option, none, some, List, [],
  ◌∷◌, ◌++◌, reverse, lookup, mem, ltb, leb, if◌then◌else◌,
}
use pyfly.Common.Effects.{
  Exception, value_error, Result, ok, err, World, Act, pure, raise, perform, ◌>>=◌, ◌>>◌,
  try_except, when,
}
use pyfly.Saga.Definitions.{
  CompensationPolicy, strict_sequential, grouped_parallel, retry_with_backoff, circuit_breaker,
  best_effort_parallel, StepDefinition, SagaDefinition,
}

abbrev pub default_compensation_retry : ℕ
default_compensation_retry = 3

abbrev pub default_compensation_backoff_ms : ℕ
default_compensation_backoff_ms = 1000

abbrev pub circuit_breaker_threshold : ℕ
circuit_breaker_threshold = 3

-- What a compensation calls: a compensation method, the events port, the error handler, the clock.
pub data Event : Type 0 where
  invoked : String → Event
  compensated : String → Option Exception → Event
  handled : String → Exception → Event
  slept : ℕ → Event

-- `value if value is not None else default`
abbrev pub get_or : Option ℕ → ℕ → ℕ
get_or none default = default
get_or (some value) default = value

-- Which of the optional ports are configured.
pub record SagaCompensator : Type 0 where
  pub has_events_port : Bool
  pub has_error_handler : Bool

-- saga_def.steps.get(step_id), where it has a compensation method.
unfoldable pub compensable : SagaDefinition → String → Option StepDefinition
unfolding lookup
compensable saga_def step_id = elim (lookup step_id saga_def.steps) [
  | none ↦ none
  | some step_def ↦ if step_def.has_compensate_method then some step_def else none
]

-- `compensable` over a list, in its order.
unfoldable pub compensables : SagaDefinition → List String → List StepDefinition
unfolding compensable
compensables saga_def [] = []
compensables saga_def (id ∷ ids) =
    let rest = compensables saga_def ids in
    elim (compensable saga_def id) [ none ↦ rest | some step_def ↦ step_def ∷ rest ]

unfoldable pub completed_of : List String → List String → List String
unfolding mem
completed_of completed [] = []
completed_of completed (id ∷ layer) =
    let rest = completed_of completed layer in if mem id completed then id ∷ rest else rest

module _ {V : Type 0} (world : World Event V) (c : SagaCompensator) where
  unfoldable pub invoke_compensation : StepDefinition → Act Event V
  invoke_compensation step_def =
      if step_def.has_compensate_method
      then perform world (invoked step_def.id)
      else raise value_error

  unfoldable pub emit_compensated : String → Option Exception → Act Event (Unit {0})
  emit_compensated step_id error =
      when c.has_events_port (do perform world (compensated step_id error); pure tt)

  unfoldable pub handle_error : String → Exception → Act Event (Unit {0})
  handle_error step_id exc =
      when c.has_error_handler (do perform world (handled step_id exc); pure tt)

  unfoldable pub sleep : ℕ → Act Event (Unit {0})
  sleep ms = do perform world (slept ms); pure tt

  unfoldable pub invoke_one :
      (raise_on_error skip_error_handler : Bool) → StepDefinition → Act Event (Unit {0})
  unfolding invoke_compensation emit_compensated handle_error
  invoke_one raise_on_error skip_error_handler step_def =
      try_except (do invoke_compensation step_def; emit_compensated step_def.id none)
        λ exc. do
          emit_compensated step_def.id (some exc)
          when (not skip_error_handler) (handle_error step_def.id exc)
          if raise_on_error then raise exc else pure tt

  -- The loop of `_strict_sequential`, over the reversed ids.
  unfoldable pub one_by_one : SagaDefinition → List String → Act Event (Unit {0})
  unfolding invoke_one compensable
  one_by_one saga_def [] = pure tt
  one_by_one saga_def (step_id ∷ ids) = elim (compensable saga_def step_id) [
    | none ↦ one_by_one saga_def ids
    | some step_def ↦ do invoke_one true false step_def; one_by_one saga_def ids
  ]

  -- `asyncio.gather(*tasks)` over calls of `_invoke_one`: all run, and the first exception is raised.
  unfoldable pub gather : List StepDefinition → Act Event (Unit {0})
  unfolding invoke_one
  gather [] h = (ok tt, h)
  gather (step_def ∷ rest) h =
      let (r, h') = invoke_one true false step_def h in
      let (rs, h'') = gather rest h' in (elim r [ ok _ ↦ rs | err exc ↦ err exc ], h'')

  -- The loop of `_grouped_parallel`, over the reversed layers.
  unfoldable pub layer_by_layer :
      SagaDefinition → List String → List (List String) → Act Event (Unit {0})
  unfolding gather completed_of compensables
  layer_by_layer saga_def completed [] = pure tt
  layer_by_layer saga_def completed (layer ∷ layers) = do
    gather (compensables saga_def (completed_of completed layer))
    layer_by_layer saga_def completed layers

  -- `for attempt in range(max_retries)`; the result is `last_error`.
  unfoldable pub attempts :
      (left attempt max_retries backoff_ms : ℕ)
      → StepDefinition
      → Option Exception
      → Act Event (Option Exception)
  unfolding invoke_one sleep
  attempts zero attempt max_retries backoff_ms step_def last_error = pure last_error
  attempts (suc left) attempt max_retries backoff_ms step_def last_error =
      try_except (do invoke_one true true step_def; pure none)
        λ exc. do
          when (ltb attempt (max_retries - 1)) (sleep (backoff_ms * 2 ^ attempt))
          attempts left (attempt + 1) max_retries backoff_ms step_def (some exc)

  unfoldable pub finish_retries : StepDefinition → Option Exception → Act Event (Unit {0})
  unfolding emit_compensated handle_error
  finish_retries step_def none = pure tt
  finish_retries step_def (some last_error) = do
    emit_compensated step_def.id (some last_error)
    handle_error step_def.id last_error
    raise last_error

  unfoldable pub with_retries : StepDefinition → Act Event (Unit {0})
  unfolding attempts finish_retries
  with_retries step_def = do
    let max_retries : ℕ = get_or step_def.compensation_retry default_compensation_retry
    let backoff_ms : ℕ = get_or step_def.compensation_backoff_ms default_compensation_backoff_ms
    last_error ← attempts max_retries 0 max_retries backoff_ms step_def none
    finish_retries step_def last_error

  -- The loop of `_retry_with_backoff`, over the reversed ids.
  unfoldable pub one_by_one_retried : SagaDefinition → List String → Act Event (Unit {0})
  unfolding with_retries compensable
  one_by_one_retried saga_def [] = pure tt
  one_by_one_retried saga_def (step_id ∷ ids) = elim (compensable saga_def step_id) [
    | none ↦ one_by_one_retried saga_def ids
    | some step_def ↦ do with_retries step_def; one_by_one_retried saga_def ids
  ]

  -- The loop of `_circuit_breaker`, over the reversed ids.
  unfoldable pub until_open : ℕ → SagaDefinition → List String → Act Event (Unit {0})
  unfolding invoke_one compensable
  until_open consecutive_failures saga_def [] = pure tt
  until_open consecutive_failures saga_def (step_id ∷ ids) =
      elim (leb circuit_breaker_threshold consecutive_failures) [
        | true ↦ pure tt
        | false ↦ elim (compensable saga_def step_id) [
          | none ↦ until_open consecutive_failures saga_def ids
          | some step_def ↦ do
            failures ←
                try_except (do invoke_one true false step_def; pure 0)
                  λ _. pure (consecutive_failures + 1)
            until_open failures saga_def ids
        ]
      ]

  -- `_compensate_one` of `_best_effort_parallel`; the result is the exception that it returns.
  unfoldable pub compensate_one : StepDefinition → Act Event (Option Exception)
  unfolding invoke_compensation emit_compensated handle_error
  compensate_one step_def =
      try_except (do invoke_compensation step_def; emit_compensated step_def.id none; pure none)
        λ exc. do
          emit_compensated step_def.id (some exc)
          handle_error step_def.id exc
          pure (some exc)

  -- `asyncio.gather(..., return_exceptions=True)`: what a task raises or returns is only logged.
  unfoldable pub gather_all : List StepDefinition → Act Event (Unit {0})
  unfolding compensate_one
  gather_all [] h = (ok tt, h)
  gather_all (step_def ∷ rest) h = gather_all rest (compensate_one step_def h).1

  unfoldable pub compensate :
      CompensationPolicy → List String → SagaDefinition → List (List String) → Act Event (Unit {0})
  unfolding one_by_one layer_by_layer one_by_one_retried until_open gather_all compensables
  compensate policy [] saga_def topology_layers = pure tt
  compensate strict_sequential (id ∷ ids) saga_def topology_layers =
      one_by_one saga_def (reverse (id ∷ ids))
  compensate grouped_parallel (id ∷ ids) saga_def topology_layers =
      layer_by_layer saga_def (id ∷ ids) (reverse topology_layers)
  compensate retry_with_backoff (id ∷ ids) saga_def topology_layers =
      one_by_one_retried saga_def (reverse (id ∷ ids))
  compensate circuit_breaker (id ∷ ids) saga_def topology_layers =
      until_open 0 saga_def (reverse (id ∷ ids))
  compensate best_effort_parallel (id ∷ ids) saga_def topology_layers =
      gather_all (compensables saga_def (id ∷ ids))
