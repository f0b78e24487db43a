-- ===== src/Backpressure/Tests.antt =====
-- The strategies on a processor that is down.
use pyfly.Common.{ℕ, ◌+◌, ◌≡◌, refl, List, [], ◌∷◌, true, false, arith}
use pyfly.Common.Effects.{Result, ok, err, external, runtime_error, value_error}
use pyfly.Backpressure.{
  BackpressureConfig, create, gather, apply_batched, apply_circuit_breaker, handle_all, handle,
}
use pyfly.Backpressure.Batches.{apply_batched-gather}
use pyfly.Backpressure.Outage.{given_first, apply_circuit_breaker-given_first}

abbrev config : BackpressureConfig
config = record {
  strategy = "circuit_breaker";
  concurrency = 1;
  batch_size = 2;
  failure_threshold = 2;
  success_threshold = 2;
  wait_duration_ms = 100;
}

abbrev three_items : List ℕ
three_items = 5 ∷ 6 ∷ 7 ∷ []

abbrev double : ℕ → ℕ → Result ℕ
double i x = ok (x + x)

abbrev down : ℕ → ℕ → Result ℕ
down i x = err (external x)

apply_batched-gather_example :
    apply_batched double three_items config ≡ ok (gather double 0 three_items)
apply_batched-gather_example = apply_batched-gather double three_items config (omega arith)

apply_circuit_breaker-given_first_example :
    apply_circuit_breaker down (λ i. 0) (λ i. 0) config three_items
    ≡ given_first (λ i x. external x) 0 2 three_items
apply_circuit_breaker-given_first_example =
    apply_circuit_breaker-given_first down (λ i. 0) (λ i. 0) config (λ i x. external x)
      (λ i x. refl) (λ i j. omega arith) three_items

third_skipped :
    apply_circuit_breaker down (λ i. 0) (λ i. 0) config three_items
    ≡ record { was_called = true; result = err (external 5) }
      ∷ record { was_called = true; result = err (external 6) }
      ∷ record { was_called = false; result = err runtime_error }
      ∷ []
unfolding apply_circuit_breaker handle_all handle
third_skipped = refl

unknown_strategy : create "fixed" ≡ err value_error
unfolding create
unknown_strategy = refl
