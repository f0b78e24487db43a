-- ===== src/Saga/Compensator/Retries.antt =====
-- Compensation with retries, against failures that do not end.
use pyfly.Common.{
  ℕ, zero, suc, ◌+◌, ◌*◌, ◌^◌, String, true, false, ◌≡◌, Option, none, some, List, [], ◌∷◌, ◌++◌,
  append_assoc, append-nil, arith,
}
use pyfly.Common.Effects.{Exception, ok, err, World}
use pyfly.Saga.Definitions.{StepDefinition}
use pyfly.Saga.Compensator.{
  Event, invoked, slept, SagaCompensator, get_or, default_compensation_retry,
  default_compensation_backoff_ms, sleep, invoke_one, attempts, finish_retries, with_retries,
}

-- `n` attempts from number `k` on, each with the sleep of `backoff_ms * 2^k` that follows it.
abbrev pub attempts_trace : String → (backoff_ms k n : ℕ) → List Event
attempts_trace id backoff_ms k zero = []
attempts_trace id backoff_ms k (suc n) =
    invoked id ∷ slept (backoff_ms * 2 ^ k) ∷ attempts_trace id backoff_ms (k + 1) n

abbrev pub no_ports : SagaCompensator
no_ports = record { has_events_port = false; has_error_handler = false }

module _ {V : Type 0} (world : World Event V) (v : V) (exc : List Event → Exception)
    (sd : StepDefinition) (has : sd.has_compensate_method ≡ true)
    (fails : (h : List Event) → world h (invoked sd.id) ≡ err (exc h))
    (sleeps : (h : List Event) (ms : ℕ) → world h (slept ms) ≡ ok v) where
  invoke_one-fails :
      (h : List Event)
      → invoke_one world no_ports true true sd h ≡ (err (exc h), h ++ invoked sd.id ∷ [])
  unfolding invoke_one
  invoke_one-fails h = ground (arith, fails h)

  attempts-trace :
      (n k max_retries backoff_ms : ℕ) (last : Option Exception) (h : List Event)
      → k + suc n ≡ max_retries
      → attempts world no_ports (suc n) k max_retries backoff_ms sd last h ≡ (
        ok (some (exc (h ++ attempts_trace sd.id backoff_ms k n))),
        (h ++ attempts_trace sd.id backoff_ms k n) ++ invoked sd.id ∷ [],
      )
  unfolding attempts sleep
  attempts-trace zero k max_retries backoff_ms last h e =
      ground (arith, invoke_one-fails h, append-nil h)
  attempts-trace (suc n) k max_retries backoff_ms last h e =
      let h' = (h ++ invoked sd.id ∷ []) ++ slept (backoff_ms * 2 ^ k) ∷ [] in
      ground (
        arith,
        invoke_one-fails h,
        sleeps (h ++ invoked sd.id ∷ []) (backoff_ms * 2 ^ k),
        attempts-trace n (k + 1) max_retries backoff_ms (some (exc h)) h',
        append_assoc h (invoked sd.id ∷ []) (slept (backoff_ms * 2 ^ k) ∷ []),
        append_assoc h (invoked sd.id ∷ slept (backoff_ms * 2 ^ k) ∷ [])
            (attempts_trace sd.id backoff_ms (k + 1) n),
      )

  -- A step whose compensation fails at every attempt, each time with the exception that belongs to
  -- what was called before, is compensated, with no port configured and an attempt allowed, with
  -- exactly `max_retries` attempts, if the sleeps return. Each but the last is followed by a sleep,
  -- twice as long as the one before, and what is raised is the exception of the last attempt.
  pub with_retries-exhausted :
      (n : ℕ) (h : List Event)
      → get_or sd.compensation_retry default_compensation_retry ≡ suc n
      → let earlier =
          h
          ++ attempts_trace sd.id
              (get_or sd.compensation_backoff_ms default_compensation_backoff_ms)
              0
              n in
        with_retries world no_ports sd h ≡ (err (exc earlier), earlier ++ invoked sd.id ∷ [])
  unfolding with_retries finish_retries
  with_retries-exhausted n h e =
      let backoff_ms = get_or sd.compensation_backoff_ms default_compensation_backoff_ms in
      ground (
        arith,
        e,
        attempts-trace n 0 (get_or sd.compensation_retry default_compensation_retry) backoff_ms none
            h,
      )

-- With `compensation_retry = 0` a step is not compensated at all: nothing is called, no event is
-- emitted, and nothing is raised.
pub with_retries-zero :
    {V : Type 0} (world : World Event V) (c : SagaCompensator) (sd : StepDefinition)
    (h : List Event)
    → sd.compensation_retry ≡ some 0
    → with_retries world c sd h ≡ (ok tt, h)
unfolding with_retries
with_retries-zero world c sd h e = ground (arith, e)
