-- ===== src/Resilience/Tests.antt =====
-- The resilience patterns on concrete inputs.
use pyfly.Common.{
  ℕ, zero, suc, ◌+◌, ◌-◌, ◌*◌, ◌≤◌, ◌<◌, true, ◌≡◌, ◌≢◌, ◌↔◌, refl, length, some, List, [], ◌∷◌,
  ◌++◌, leb, if◌then◌else◌, arith,
}
use pyfly.Common.Effects.{external, Result, ok, err, World}
use pyfly.Resilience.RateLimiter
use pyfly.Resilience.RateLimiter.{RateLimiter}
use pyfly.Resilience.Bulkhead
use pyfly.Resilience.CircuitBreaker
use pyfly.Resilience.CircuitBreaker.{CircuitBreaker, opened, half_open, returned, raised}
use pyfly.Resilience.Retry
use pyfly.Resilience.Fallback
use pyfly.Resilience.Retry.{RetryPolicy, called, slept}

-- Two tokens of three units each, one unit a tick.
abbrev limiter : RateLimiter
limiter = record { max_tokens = 2; refill_rate = 1; one = 3; tokens = 6; last_refill = 10 }

abbrev burst : List ℕ
burst = 10 ∷ 10 ∷ 11 ∷ 13 ∷ []

burst_admitted : (RateLimiter.serve limiter burst).0 ≡ 3
unfolding RateLimiter.serve
burst_admitted = refl

serve-le_budget_example : (RateLimiter.serve limiter burst).0 * 3 ≤ 6 + (15 - 10) * 1
serve-le_budget_example = RateLimiter.serve-le_budget limiter burst 15 (omega arith)

abbrev one_call : Bulkhead.Load
one_call = record {
  bulkhead = record { max_concurrent = 1; active = 0 + 1; semaphore = 1 - 1 };
  async_calls = 0 + 1;
  sync_calls = 0;
}

one_call-Reach : Bulkhead.Reach 1 one_call
unfolding Bulkhead.new Bulkhead.acquire
one_call-Reach = Bulkhead.Reach.next Bulkhead.Reach.start (Bulkhead.Step.begin_async _ _ refl)

Reach-IsCounted_example : Bulkhead.IsCounted 1 one_call
Reach-IsCounted_example = Bulkhead.Reach-IsCounted one_call-Reach

abbrev breaker : CircuitBreaker
breaker = record {
  failure_threshold = 2;
  recovery_timeout = 30;
  failure_count = 1;
  last_failure_time = some 4;
  state = CircuitBreaker.CircuitState.closed;
}

admits-failures_example :
    CircuitBreaker.admits
      (CircuitBreaker.settle_all
        (CircuitBreaker.settle breaker returned)
        (CircuitBreaker.failures (5 ∷ []) ++ raised 7 ∷ []))
      20
    ≡ (if leb 2 (1 + 1) then leb 30 (20 - 7) else true)
admits-failures_example = CircuitBreaker.admits-failures breaker (5 ∷ []) 7 20

abbrev tripped : CircuitBreaker
tripped = CircuitBreaker.settle_all (CircuitBreaker.new 1 30) (raised 7 ∷ [])

settle_all-opened_example :
    (tripped.state ≢ half_open)
    × ((tripped.state ≡ opened) ↔ (1 ≤ CircuitBreaker.failures_since 0 (raised 7 ∷ [])))
settle_all-opened_example = CircuitBreaker.settle_all-opened 1 30 (raised 7 ∷ []) (omega arith)

abbrev policy : RetryPolicy
policy = record { max_attempts = 3; base_delay = 5; retry_on = λ exc. true }

-- The second call succeeds.
abbrev answers : ℕ → Result ℕ
answers zero = err (external 3)
answers (suc n) = ok 42

abbrev service : World Retry.Event ℕ
service h (called n) = answers n
service h (slept ms) = ok 0

execute-Ends_example :
    Retry.execute service policy [] ≡ (ok 42, Retry.backoff_trace 5 0 1 ++ called 1 ∷ [])
execute-Ends_example =
    Retry.execute-Ends service policy answers (λ h k. refl) 0 (λ h ms. refl) 1 (omega arith)
      first_fails tt
  where
    first_fails : (j : ℕ) → j < 1 → Retry.Retried policy (answers j)
    first_fails zero low = (external 3, refl, refl)
    first_fails (suc j) low = absurd (omega arith)

abbrev broken : World Fallback.Event ℕ
broken history event = err (external (length history))
