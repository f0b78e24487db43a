-- ===== src/Resilience/Retry.antt =====
-- client/retry.py: retries with exponential backoff. The delays are in units of the clock.
use pyfly.Common.{
  ℕ, zero, suc, ◌+◌, ◌-◌, ◌*◌, ◌^◌, ◌≤◌, ◌<◌, Bool, true, false, ◌≡◌, refl, ◌∙◌, Option, none, some,
  List, [], ◌∷◌, ◌++◌, append_assoc, ltb, Bool-cases, inl, inr, ◌⊎◌, if◌then◌else◌, arith,
}
use pyfly.Common.Effects.{
  Exception, type_error, Result, ok, err, World, Act, pure, raise, perform, ◌>>◌, when,
}

-- A call of the function, numbered from zero, and a sleep.
pub data Event : Type 0 where
  called slept : ℕ → Event

-- `retry_on`, as the test that an exception is of one of its types.
pub record RetryPolicy : Type 0 where
  pub max_attempts : ℕ
  pub base_delay : ℕ
  pub retry_on : Exception → Bool

module _ {V : Type 0} (world : World Event V) (policy : RetryPolicy) where
  -- The rest of an iteration of the loop, after the call's answer.
  abbrev pub handle : ℕ → Result V → (Exception → Act Event V) → Act Event V
  handle attempt (ok v) continue_loop = pure v
  handle attempt (err exc) continue_loop =
      if policy.retry_on exc
      then (do
        when (ltb attempt (policy.max_attempts - 1))
            (do perform world (slept (policy.base_delay * 2 ^ attempt)); pure tt)
        continue_loop exc)
      else raise exc

  -- `for attempt in range(max_attempts)` from `attempt` on, with `left` to go; raising
  -- `last_exception` when it is None is a TypeError.
  unfoldable pub attempts : (left attempt : ℕ) → Option Exception → Act Event V
  attempts zero attempt none h = (err type_error, h)
  attempts zero attempt (some last_exception) h = (err last_exception, h)
  attempts (suc left) attempt last_exception h =
      let (r, h') = perform world (called attempt) h in
      handle attempt r (λ exc. attempts left (attempt + 1) (some exc)) h'

  unfoldable pub execute : Act Event V
  unfolding attempts
  execute = attempts policy.max_attempts 0 none

-- `n` failed calls from number `k` on, each with its delay.
abbrev pub backoff_trace : (base_delay k n : ℕ) → List Event
backoff_trace base_delay k zero = []
backoff_trace base_delay k (suc n) =
    called k ∷ slept (base_delay * 2 ^ k) ∷ backoff_trace base_delay (k + 1) n

-- The answer is an exception that is retried.
abbrev pub Retried : {V : Type 0} → RetryPolicy → Result V → Type 0
Retried policy r = (exc : Exception) × (r ≡ err exc) × (policy.retry_on exc ≡ true)

-- The answer to call number `m` ends the loop: a value, an exception of another type, or the answer
-- to the last call allowed.
abbrev pub Ends : {V : Type 0} → RetryPolicy → ℕ → Result V → Type 0
Ends policy m (ok v) = Unit
Ends policy m (err exc) = (policy.retry_on exc ≡ false) ⊎ (m + 1 ≡ policy.max_attempts)

module _ {V : Type 0} (world : World Event V) (policy : RetryPolicy) (answers : ℕ → Result V)
    (answered : (h : List Event) (k : ℕ) → world h (called k) ≡ answers k) (v₀ : V)
    (sleeps : (h : List Event) (ms : ℕ) → world h (slept ms) ≡ ok v₀) where
  handle-Retried :
      (k : ℕ) (r : Result V) (loop : Exception → Act Event V) (h : List Event)
      → k + 1 < policy.max_attempts
      → Retried policy r
      → (exc : Exception) × (handle world policy k r loop h
          ≡ loop exc (h ++ slept (policy.base_delay * 2 ^ k) ∷ []))
  handle-Retried k r loop h more (exc, failed, listed) =
      (exc, ground (arith, failed, listed, sleeps h (policy.base_delay * 2 ^ k)))

  handle-last :
      (k : ℕ) (r : Result V) (last : Option Exception) (h : List Event) (left : ℕ)
      → k + suc left ≡ policy.max_attempts
      → Ends policy k r
      → handle world policy k r (λ exc. attempts world policy left (k + 1) (some exc)) h ≡ (r, h)
  unfolding attempts
  handle-last k (ok v) last h left e ends = refl
  handle-last k (err exc) last h zero e ends =
      let no_more : ltb k (policy.max_attempts - 1) ≡ false = ground arith in
      elim (Bool-cases (policy.retry_on exc)) [
        | inl listed ↦ rw (listed, no_more)
        | inr other ↦ rw other
      ]
  handle-last k (err exc) last h (suc left) e (inl other) = rw other
  handle-last k (err exc) last h (suc left) e (inr over) = absurd (omega arith)

  attempts-Ends :
      (n k m left : ℕ) (last : Option Exception) (h : List Event)
      → m ≡ k + n
      → n < left
      → k + left ≡ policy.max_attempts
      → ((j : ℕ) → k ≤ j → j < m → Retried policy (answers j))
      → Ends policy m (answers m)
      → attempts world policy left k last h
        ≡ (answers m, h ++ (backoff_trace policy.base_delay k n ++ called m ∷ []))
  unfolding attempts
  attempts-Ends n k m zero last h e room total retried ends = absurd (omega arith)
  attempts-Ends zero k m (suc left) last h e room total retried ends =
      let same : m ≡ k = omega arith in
      rw (same, answered h k)
        (handle-last k (answers k) last (h ++ called k ∷ []) left total (rw same at ends))
  attempts-Ends (suc n) k m (suc left) last h e room total retried ends =
      let h' = h ++ called k ∷ [] in
      let (exc, step) =
        handle-Retried k (answers k) (λ exc. attempts world policy left (k + 1) (some exc)) h'
          (omega arith) (retried k (omega arith) (omega arith)) in
      rw (answered h k) (
        step
        ∙ attempts-Ends n (k + 1) m left (some exc) (h' ++ slept (policy.base_delay * 2 ^ k) ∷ [])
            (omega arith) (omega arith) (omega arith) (λ j low high. retried j (omega arith) high)
            ends
        ∙ ground (
          arith,
          append_assoc h (called k ∷ []) (slept (policy.base_delay * 2 ^ k) ∷ []),
          append_assoc h (called k ∷ slept (policy.base_delay * 2 ^ k) ∷ [])
              (backoff_trace policy.base_delay (k + 1) n ++ called m ∷ []),
        ))

  -- Calls whose exceptions are retried are followed by a delay, doubled each time, and another call;
  -- the first answer that is a value, an exception of another type, or the answer to the last call
  -- allowed, is the result.
  pub execute-Ends :
      (m : ℕ)
      → m < policy.max_attempts
      → ((j : ℕ) → j < m → Retried policy (answers j))
      → Ends policy m (answers m)
      → execute world policy [] ≡ (answers m, backoff_trace policy.base_delay 0 m ++ called m ∷ [])
  unfolding execute
  execute-Ends m room retried ends =
      attempts-Ends m 0 m policy.max_attempts none [] (omega arith) room (omega arith)
        (λ j low high. retried j high) ends
