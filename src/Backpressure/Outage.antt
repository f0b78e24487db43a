-- ===== src/Backpressure/Outage.antt =====
-- The circuit breaker strategy while the processor is down.
use pyfly.Common.{
  ℕ, zero, suc, ◌+◌, ◌-◌, ◌≤◌, ◌<◌, max, true, false, some, List, [], ◌∷◌, ◌≡◌, refl, ap, ◌∙◌,
  arith,
}
use pyfly.Common.Effects.{Exception, runtime_error, Result, err}
use pyfly.Backpressure.{
  BackpressureConfig, Circuit, Handled, closed_circuit, handle, handle_all, apply_circuit_breaker,
}

-- The first `n` items are given to the processor, which fails, and the others are refused.
unfoldable pub given_first :
    {A B : Type 0} (failure : ℕ → A → Exception) (i n : ℕ) → List A → List (Handled B)
given_first failure i n [] = []
given_first failure i zero (item ∷ items) =
    record { was_called = false; result = err runtime_error }
    ∷ given_first failure (i + 1) zero items
given_first failure i (suc n) (item ∷ items) =
    record { was_called = true; result = err (failure i item) }
    ∷ given_first failure (i + 1) n items

module _ {A B : Type 0} (processor : ℕ → A → Result B) (before after : ℕ → ℕ)
    (config : BackpressureConfig) (failure : ℕ → A → Exception)
    (fails : (i : ℕ) (item : A) → processor i item ≡ err (failure i item))
    (soon : (i j : ℕ) → before j - after i < config.wait_duration_ms) where
  handle_all-open :
      (i j : ℕ) (items : List A) (c : Circuit)
      → c.circuit_open ≡ true
      → c.circuit_opened_at ≡ some (after i)
      → handle_all processor before after config j items c ≡ given_first failure j zero items
  unfolding handle_all handle given_first
  handle_all-open i j [] c is_open at = refl
  handle_all-open i j (item ∷ items) c is_open at =
      ground (arith, soon i j, handle_all-open i (j + 1) items c is_open at)

  handle-closed :
      (i : ℕ) (item : A) (c : Circuit)
      → c.circuit_open ≡ false
      → ((handle processor before after config i item c).0
          ≡ record { was_called = true; result = err (failure i item) })
        × ((handle processor before after config i item c).1.consecutive_failures
            ≡ c.consecutive_failures + 1)
        × (config.failure_threshold ≤ c.consecutive_failures + 1
            → ((handle processor before after config i item c).1.circuit_open ≡ true)
              × ((handle processor before after config i item c).1.circuit_opened_at
                  ≡ some (after i)))
        × (c.consecutive_failures + 1 < config.failure_threshold
            → (handle processor before after config i item c).1.circuit_open ≡ false)
  unfolding handle
  handle-closed i item c is_closed = ground (arith, fails i item)

  -- How many of the items to come are given to the processor while it fails.
  abbrev left : Circuit → ℕ
  left c = max 1 (config.failure_threshold - c.consecutive_failures)

  handle_all-closed :
      (n i : ℕ) (items : List A) (c : Circuit)
      → c.circuit_open ≡ false
      → suc n ≡ left c
      → handle_all processor before after config i items c ≡ given_first failure i (suc n) items
  unfolding handle_all given_first
  handle_all-closed n i [] c is_closed e = refl
  handle_all-closed zero i (item ∷ items) c is_closed e =
      let facts = handle-closed i item c is_closed in
      let c' = (handle processor before after config i item c).1 in
      ground (arith, facts, handle_all-open i (i + 1) items c')
  handle_all-closed (suc n) i (item ∷ items) c is_closed e =
      let facts = handle-closed i item c is_closed in
      let c' = (handle processor before after config i item c).1 in
      ground (arith, facts, handle_all-closed n (i + 1) items c')

  -- While every call of the processor fails and the waiting time does not pass, the first items are
  -- given to the processor, as many as the threshold says, but at least one, and what it raises is
  -- their result; every later item is refused without a call.
  pub apply_circuit_breaker-given_first :
      (items : List A)
      → apply_circuit_breaker processor before after config items
        ≡ given_first failure 0 (max 1 config.failure_threshold) items
  unfolding apply_circuit_breaker
  apply_circuit_breaker-given_first items =
      let most : ℕ = max 1 config.failure_threshold in
      let first : suc (most - 1) ≡ most = omega arith in
      handle_all-closed (most - 1) 0 items closed_circuit refl (omega arith)
      ∙ ap (λ n. given_first failure 0 n items) first
