-- ===== src/Saga/Compensator/Tests.antt =====
-- Compensations of a saga of four steps, three of which have a compensation.
use pyfly.Common.{
  ℕ, String, Bool, true, false, ◌≡◌, refl, none, some, List, [], ◌∷◌, ◌++◌, reverse, length,
}
use pyfly.Common.Effects.{external, ok, err, is_ok, World}
use pyfly.Saga.Definitions.{StepDefinition, SagaDefinition, strict_sequential, best_effort_parallel}
use pyfly.Saga.Compensator.{
  Event, invoked, compensated, handled, slept, SagaCompensator, compensables, with_retries,
  compensate,
}
use pyfly.Saga.Compensator.Invocations.{invocations, ids_of}
use pyfly.Saga.Compensator.Policies.{InvokesPrefix, strict_sequential-prefix}
use pyfly.Saga.Compensator.Parallel.{best_effort_parallel-all}
use pyfly.Saga.Compensator.Retries.{
  attempts_trace, no_ports, with_retries-exhausted, with_retries-zero,
}

abbrev step : String → Bool → StepDefinition
step id has = record {
  id = id;
  has_step_method = true;
  has_compensate_method = has;
  depends_on = [];
  retry = 0;
  backoff_ms = 0;
  timeout_ms = 0;
  compensation_retry = none;
  compensation_backoff_ms = some 100;
}

abbrev order_saga : SagaDefinition
order_saga = record {
  name = "order";
  steps =
      ("reserve", step "reserve" true)
      ∷ ("notify", step "notify" false)
      ∷ ("pay", step "pay" true)
      ∷ ("ship", step "ship" true)
      ∷ [];
  layer_concurrency = 0;
}

abbrev completed : List String
completed = "reserve" ∷ "notify" ∷ "pay" ∷ "ship" ∷ []

abbrev layers : List (List String)
layers = ("reserve" ∷ []) ∷ ("notify" ∷ "pay" ∷ []) ∷ ("ship" ∷ []) ∷ []

abbrev both_ports : SagaCompensator
both_ports = record { has_events_port = true; has_error_handler = true }

-- Every compensation fails, and the ports answer.
abbrev failing : World Event ℕ
failing h (invoked id) = err (external 7)
failing h (compensated _ _) = ok 0
failing h (handled _ _) = ok 0
failing h (slept ms) = ok 0

strict_sequential_stops :
    compensate failing both_ports strict_sequential completed order_saga layers [] ≡ (
      err (external 7),
      invoked "ship" ∷ compensated "ship" (some (external 7)) ∷ handled "ship" (external 7) ∷ [],
    )
unfolding compensate
strict_sequential_stops = refl

strict_sequential-prefix_example :
    InvokesPrefix
      (ids_of (compensables order_saga (reverse completed)))
      []
      (is_ok (compensate failing both_ports strict_sequential completed order_saga layers []).0)
      (compensate failing both_ports strict_sequential completed order_saga layers []).1
strict_sequential-prefix_example =
    strict_sequential-prefix failing both_ports order_saga completed layers

best_effort_parallel-all_example :
    ((compensate failing both_ports best_effort_parallel completed order_saga layers []).0 ≡ ok tt)
    × (invocations
          (compensate failing both_ports best_effort_parallel completed order_saga layers []).1
        ≡ ids_of (compensables order_saga completed))
best_effort_parallel-all_example =
    best_effort_parallel-all failing both_ports order_saga completed layers

-- Every attempt fails with an exception of its own.
abbrev counting : World Event ℕ
counting h (invoked id) = err (external (length h))
counting h (compensated _ _) = ok 0
counting h (handled _ _) = ok 0
counting h (slept ms) = ok 0

with_retries-exhausted_example :
    with_retries counting no_ports (step "pay" true) []
    ≡ (err (external 4), ([] ++ attempts_trace "pay" 100 0 2) ++ invoked "pay" ∷ [])
with_retries-exhausted_example =
    with_retries-exhausted counting 0 (λ h. external (length h)) (step "pay" true) refl (λ h. refl)
      (λ h ms. refl) 2 [] refl

abbrev unretried : StepDefinition
unretried = record (step "pay" true) { compensation_retry = some 0 }

with_retries-zero_example : with_retries failing both_ports unretried [] ≡ (ok tt, [])
with_retries-zero_example = with_retries-zero failing both_ports unretried [] refl
