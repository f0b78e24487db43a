-- ===== src/Backpressure.antt =====
-- transactional/shared/engine/backpressure.py: strategies that run a processor over items. The
-- processor's answer to the item at a position is any function of both, and the clock is read before
-- and after the item at a position.
pub mod Batches
pub mod Outage
mod Tests
use pyfly.Common.{
  ℕ, zero, suc, ◌+◌, ◌-◌, Bool, true, false, String, Option, none, some, List, [], ◌∷◌, ◌++◌,
  length, leb, str_eq, if◌then◌else◌,
}
use pyfly.Common.Effects.{Result, ok, err, value_error, runtime_error}

pub record BackpressureConfig : Type 0 where
  pub strategy : String
  pub concurrency : ℕ
  pub batch_size : ℕ
  pub failure_threshold : ℕ
  pub success_threshold : ℕ
  pub wait_duration_ms : ℕ

pub data Strategy : Type 0 where
  adaptive batched circuit_breaker : Strategy

-- BackpressureStrategyFactory.create
unfoldable pub create : String → Result Strategy
create strategy_type =
    if str_eq strategy_type "adaptive"
    then ok adaptive
    else (if str_eq strategy_type "batched"
        then ok batched
        else (if str_eq strategy_type "circuit_breaker"
            then ok circuit_breaker
            else err value_error))

-- items[:n] and items[n:]
unfoldable pub take : {A : Type 0} → ℕ → List A → List A
take n [] = []
take zero (x ∷ items) = []
take (suc n) (x ∷ items) = x ∷ take n items

unfoldable pub drop : {A : Type 0} → ℕ → List A → List A
drop n [] = []
drop zero (x ∷ items) = x ∷ items
drop (suc n) (x ∷ items) = drop n items

-- The local variables of the circuit breaker's loop.
pub record Circuit : Type 0 where
  pub consecutive_failures : ℕ
  pub circuit_open : Bool
  pub circuit_opened_at : Option ℕ

abbrev pub closed_circuit : Circuit
closed_circuit = record { consecutive_failures = 0; circuit_open = false; circuit_opened_at = none }

-- What is appended to the results for an item, and whether the processor was called for it.
pub record Handled (B : Type 0) : Type 0 where
  pub was_called : Bool
  pub result : Result B

module _ {A B : Type 0} (processor : ℕ → A → Result B) where
  -- `asyncio.gather(..., return_exceptions=True)` over the items from a position on
  unfoldable pub gather : ℕ → List A → List (Result B)
  gather i [] = []
  gather i (item ∷ items) = processor i item ∷ gather (i + 1) items

  -- `for start in range(0, len(items), batch_size)`; each round takes a batch off, on fuel.
  unfoldable pub batches : (fuel batch_size start : ℕ) → List A → List (Result B)
  unfolding gather take drop
  batches fuel batch_size start [] = []
  batches zero batch_size start (item ∷ items) = []
  batches (suc fuel) batch_size start (item ∷ items) =
      gather start (take batch_size (item ∷ items))
      ++ batches fuel batch_size (start + batch_size) (drop batch_size (item ∷ items))

  -- BatchedBackpressureStrategy.apply; `range` refuses a step of 0.
  unfoldable pub apply_batched : List A → BackpressureConfig → Result (List (Result B))
  unfolding batches
  apply_batched [] config = ok []
  apply_batched (item ∷ items) config =
      if leb config.batch_size 0
      then err value_error
      else ok (batches (length (item ∷ items)) config.batch_size 0 (item ∷ items))

  module _ (before after : ℕ → ℕ) (config : BackpressureConfig) where
    abbrev pub may_probe : Option ℕ → ℕ → Bool
    may_probe none now = false
    may_probe (some opened_at) now = leb config.wait_duration_ms (now - opened_at)

    -- Half-open: a single probe.
    abbrev pub probe : ℕ → Result B → Circuit → Circuit
    probe i (ok result) c = closed_circuit
    probe i (err exc) c = record c { circuit_opened_at = some (after i) }

    -- Closed: the item is processed normally.
    abbrev pub settle : ℕ → Result B → Circuit → Circuit
    settle i (ok result) c = record c { consecutive_failures = 0 }
    settle i (err exc) c =
        let failures = c.consecutive_failures + 1 in
        if leb config.failure_threshold failures
        then record {
          consecutive_failures = failures;
          circuit_open = true;
          circuit_opened_at = some (after i);
        }
        else record c { consecutive_failures = failures }

    unfoldable pub handle : ℕ → A → Circuit → Handled B × Circuit
    handle i item c =
        if c.circuit_open
        then (if may_probe c.circuit_opened_at (before i)
            then (
              record { was_called = true; result = processor i item },
              probe i (processor i item) c,
            )
            else (record { was_called = false; result = err runtime_error }, c))
        else (
          record { was_called = true; result = processor i item },
          settle i (processor i item) c,
        )

    unfoldable pub handle_all : ℕ → List A → Circuit → List (Handled B)
    unfolding handle
    handle_all i [] c = []
    handle_all i (item ∷ items) c =
        let (handled, c') = handle i item c in handled ∷ handle_all (i + 1) items c'

    -- CircuitBreakerBackpressureStrategy.apply, with the calls that it makes.
    unfoldable pub apply_circuit_breaker : List A → List (Handled B)
    unfolding handle_all
    apply_circuit_breaker items = handle_all 0 items closed_circuit
