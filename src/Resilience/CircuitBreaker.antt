-- ===== src/Resilience/CircuitBreaker.antt =====
-- client/circuit_breaker.py. Times are those of the monotonic clock. A call is admitted, and later
-- settled by the end of the function that it awaits; between the two, other calls may run.
use pyfly.Common.{
  ℕ, ◌+◌, ◌-◌, ◌≤◌, ◌<◌, Bool, true, false, ◌≡◌, ◌≢◌, ◌↔◌, ◌⊎◌, refl, sym, ◌∙◌, Option, none, some,
  List, [], ◌∷◌, ◌++◌, length, leb, if◌then◌else◌, arith,
}

pub data CircuitState : Type 0 where
  closed opened half_open : CircuitState

pub record CircuitBreaker : Type 0 where
  pub failure_threshold : ℕ
  pub recovery_timeout : ℕ
  pub failure_count : ℕ
  pub last_failure_time : Option ℕ
  pub state : CircuitState

unfoldable pub new : (failure_threshold recovery_timeout : ℕ) → CircuitBreaker
new failure_threshold recovery_timeout = record {
  failure_threshold = failure_threshold;
  recovery_timeout = recovery_timeout;
  failure_count = 0;
  last_failure_time = none;
  state = closed;
}

-- self._state == CircuitState.OPEN
abbrev pub is_open : CircuitState → Bool
is_open opened = true
is_open _ = false

abbrev pub is_half_open : CircuitState → Bool
is_half_open half_open = true
is_half_open _ = false

abbrev pub has_passed : (recovery_timeout : ℕ) → Option ℕ → (now : ℕ) → Bool
has_passed recovery_timeout none now = false
has_passed recovery_timeout (some failed_at) now = leb recovery_timeout (now - failed_at)

-- The property `state`.
unfoldable pub current_state : CircuitBreaker → ℕ → CircuitState
current_state b now =
    if is_open b.state
    then (if has_passed b.recovery_timeout b.last_failure_time now then half_open else b.state)
    else b.state

-- Whether `call` goes on to the function, or raises CircuitBreakerException.
unfoldable pub admits : CircuitBreaker → ℕ → Bool
unfolding current_state
admits b now = if is_open (current_state b now) then false else true

unfoldable pub on_success : CircuitBreaker → CircuitBreaker
on_success b = record b { failure_count = 0; state = closed; last_failure_time = none }

unfoldable pub on_failure : CircuitBreaker → ℕ → CircuitBreaker
on_failure b now =
    if is_half_open b.state
    then record b {
      failure_count = b.failure_threshold;
      state = opened;
      last_failure_time = some now;
    }
    else record b {
      failure_count = b.failure_count + 1;
      last_failure_time = some now;
      state = if leb b.failure_threshold (b.failure_count + 1) then opened else b.state;
    }

-- How the awaited function ends: it returns, it raises a CircuitBreakerException of its own, or it
-- raises another exception at a time.
pub data Settled : Type 0 where
  returned passed_through : Settled
  raised : ℕ → Settled

unfoldable pub settle : CircuitBreaker → Settled → CircuitBreaker
unfolding on_success on_failure
settle b returned = on_success b
settle b passed_through = b
settle b (raised now) = on_failure b now

unfoldable pub settle_all : CircuitBreaker → List Settled → CircuitBreaker
unfolding settle
settle_all b [] = b
settle_all b (s ∷ rest) = settle_all (settle b s) rest

pub record IsConsistent (b : CircuitBreaker) : Type 0 where
  pub never_stored : b.state ≢ half_open
  pub open_full :
      b.state ≡ opened → (b.failure_threshold ≤ b.failure_count) × (b.last_failure_time ≢ none)
  pub full_open : b.state ≡ closed → (b.failure_count < b.failure_threshold) ⊎ (b.failure_count ≡ 0)

settle-IsConsistent :
    (b : CircuitBreaker) (s : Settled) → IsConsistent b → IsConsistent (settle b s)
unfolding settle
settle-IsConsistent b returned h = ground arith
settle-IsConsistent b passed_through h = h
settle-IsConsistent b (raised now) h = ground arith

IsConsistent-new : (threshold timeout : ℕ) → IsConsistent (new threshold timeout)
unfolding new
IsConsistent-new threshold timeout = ground arith

settle_all-IsConsistent :
    (b : CircuitBreaker) (l : List Settled) → IsConsistent b → IsConsistent (settle_all b l)
unfolding settle_all
settle_all-IsConsistent b [] h = h
settle_all-IsConsistent b (s ∷ l) h =
    settle_all-IsConsistent (settle b s) l (settle-IsConsistent b s h)

-- The failures since the last success, of which `counted` came before.
unfoldable pub failures_since : (counted : ℕ) → List Settled → ℕ
failures_since counted [] = counted
failures_since counted (returned ∷ l) = failures_since 0 l
failures_since counted (passed_through ∷ l) = failures_since counted l
failures_since counted (raised now ∷ l) = failures_since (counted + 1) l

settle-failure_count :
    (b : CircuitBreaker) (s : Settled) (l : List Settled)
    → IsConsistent b
    → ((settle b s).failure_threshold ≡ b.failure_threshold)
      × (failures_since b.failure_count (s ∷ l) ≡ failures_since (settle b s).failure_count l)
unfolding settle failures_since
settle-failure_count b returned l h = (refl, refl)
settle-failure_count b passed_through l h = (refl, refl)
settle-failure_count b (raised now) l h = ground (arith, h)

settle_all-failure_count :
    (b : CircuitBreaker) (l : List Settled)
    → IsConsistent b
    → ((settle_all b l).failure_threshold ≡ b.failure_threshold)
      × ((settle_all b l).failure_count ≡ failures_since b.failure_count l)
unfolding settle_all
settle_all-failure_count b [] h = (refl, unfold failures_since in refl)
settle_all-failure_count b (s ∷ l) h =
    let one = settle-failure_count b s l h in
    let rest = settle_all-failure_count (settle b s) l (settle-IsConsistent b s h) in
    (rest.0 ∙ one.0, rest.1 ∙ sym one.1)

-- However calls settle, with a threshold above zero the circuit is open exactly while the calls that
-- have failed since the last success are as many as the threshold or more, and HALF_OPEN is never
-- stored. A call that raises a CircuitBreakerException of its own counts neither as a failure nor as
-- a success.
pub settle_all-opened :
    (threshold timeout : ℕ) (l : List Settled)
    → 0 < threshold
    → ((settle_all (new threshold timeout) l).state ≢ half_open)
      × (((settle_all (new threshold timeout) l).state ≡ opened) ↔ (threshold ≤ failures_since 0 l))
settle_all-opened threshold timeout l pos =
    let b = settle_all (new threshold timeout) l in
    let h =
      settle_all-IsConsistent (new threshold timeout) l (IsConsistent-new threshold timeout) in
    let same_threshold : b.failure_threshold ≡ threshold =
      (settle_all-failure_count (new threshold timeout) l (IsConsistent-new threshold timeout)).0
      ∙ (unfold new in refl) in
    let counted : b.failure_count ≡ failures_since 0 l =
      (settle_all-failure_count (new threshold timeout) l (IsConsistent-new threshold timeout)).1
      ∙ (unfold new in refl) in
    (
      h.never_stored,
      (
        λ e. omega (arith, (h.open_full e).0, same_threshold, counted),
        λ le. ground (arith, h, same_threshold, counted),
      ),
    )

abbrev pub failures : List ℕ → List Settled
failures [] = []
failures (now ∷ times) = raised now ∷ failures times

-- A run of failures, the last of them at `now`.
failed_run :
    (b : CircuitBreaker) (times : List ℕ) (now : ℕ)
    → (b.state ≡ closed) ⊎ ((b.state ≡ opened) × (b.failure_threshold ≤ b.failure_count))
    → settle_all b (failures times ++ raised now ∷ []) ≡ record b {
      failure_count = b.failure_count + length times + 1;
      last_failure_time = some now;
      state =
          if leb b.failure_threshold (b.failure_count + length times + 1) then opened else closed;
    }
unfolding settle_all settle
failed_run b [] now e = ground arith
failed_run b (t ∷ times) now e = ground (arith, failed_run (on_failure b t) times now)

-- After a success, a run of failures that reaches the threshold makes the circuit refuse calls until
-- the recovery timeout has passed since the last of them, and admit calls from then on; after a
-- shorter run all calls are admitted.
pub admits-failures :
    (b : CircuitBreaker) (times : List ℕ) (now later : ℕ)
    → admits (settle_all (settle b returned) (failures times ++ raised now ∷ [])) later ≡ (
        if leb b.failure_threshold (length times + 1)
        then leb b.recovery_timeout (later - now)
        else true)
unfolding admits settle
admits-failures b times now later = ground (arith, failed_run (settle b returned) times now)

-- The probe after the timeout decides: if it fails, the open circuit refuses calls for another
-- timeout, and if it returns, all calls are admitted.
pub admits-probe :
    (threshold timeout : ℕ) (l : List Settled) (now later : ℕ)
    → (settle_all (new threshold timeout) l).state ≡ opened
    → (admits (settle (settle_all (new threshold timeout) l) (raised now)) later
        ≡ leb (settle_all (new threshold timeout) l).recovery_timeout (later - now))
      × (admits (settle (settle_all (new threshold timeout) l) returned) later ≡ true)
unfolding admits settle
admits-probe threshold timeout l now later open_now =
    let h =
      settle_all-IsConsistent (new threshold timeout) l (IsConsistent-new threshold timeout) in
    ground (arith, h, open_now)
