-- ===== src/Resilience/RateLimiter.antt =====
-- resilience/rate_limiter.py: a token bucket. The floats are counted in a unit of which a token is
-- `one`, the clock in ticks, and a tick adds `refill_rate` units; no rounding is modelled.
use pyfly.Common.{
  ℕ, ◌+◌, ◌-◌, ◌*◌, ◌≤◌, min, true, List, [], ◌∷◌, ◌≡◌, ltb, leb, ap, if◌then◌else◌, arith,
}
use pyfly.Common.Effects.{Result, ok, err, rate_limited, is_ok}

pub record RateLimiter : Type 0 where
  pub max_tokens : ℕ
  pub refill_rate : ℕ
  pub one : ℕ
  pub tokens : ℕ
  pub last_refill : ℕ

-- RateLimiter(max_tokens, refill_rate)
unfoldable pub new : (max_tokens refill_rate one now : ℕ) → RateLimiter
new max_tokens refill_rate one now = record {
  max_tokens = max_tokens;
  refill_rate = refill_rate;
  one = one;
  tokens = max_tokens * one;
  last_refill = now;
}

unfoldable pub available_tokens : RateLimiter → ℕ → ℕ
available_tokens r now =
    min (r.max_tokens * r.one) (r.tokens + (now - r.last_refill) * r.refill_rate)

unfoldable pub refill : RateLimiter → ℕ → RateLimiter
refill r now = record r {
  tokens = min (r.max_tokens * r.one) (r.tokens + (now - r.last_refill) * r.refill_rate);
  last_refill = now;
}

unfoldable pub acquire : RateLimiter → ℕ → Result (Unit {0}) × RateLimiter
unfolding refill
acquire r now =
    let r' = refill r now in
    if ltb r'.tokens r'.one
    then (err rate_limited, r')
    else (ok tt, record r' { tokens = r'.tokens - r'.one })

-- The calls that are admitted, of those made at the given times, and the limiter after them.
unfoldable pub serve : RateLimiter → List ℕ → ℕ × RateLimiter
unfolding acquire
serve r [] = (0, r)
serve r (now ∷ times) =
    let (answer, r') = acquire r now in
    let (admitted, r'') = serve r' times in ((if is_ok answer then 1 else 0) + admitted, r'')

-- Times that do not decrease from `from` and end at `last`, as a monotonic clock gives them.
abbrev pub Monotonic : (from : ℕ) → List ℕ → (last : ℕ) → Type 0
Monotonic from [] last = from ≤ last
Monotonic from (now ∷ times) last = (from ≤ now) × Monotonic now times last

acquire_budget :
    (r : RateLimiter) (now : ℕ)
    → (is_ok (acquire r now).0 ≡ true
        → (acquire r now).1.tokens + r.one ≤ r.tokens + (now - r.last_refill) * r.refill_rate)
      × ((acquire r now).1.tokens ≤ r.tokens + (now - r.last_refill) * r.refill_rate)
unfolding acquire
acquire_budget r now = ground arith

acquire_fixed :
    (r : RateLimiter) (now : ℕ)
    → ((acquire r now).1.one ≡ r.one)
      × ((acquire r now).1.refill_rate ≡ r.refill_rate)
      × ((acquire r now).1.last_refill ≡ now)
      × ((acquire r now).1.max_tokens ≡ r.max_tokens)
unfolding acquire
acquire_fixed r now = ground arith

elapsed :
    (from now last rate : ℕ)
    → from ≤ now
    → now ≤ last
    → (now - from) * rate + (last - now) * rate ≡ (last - from) * rate
elapsed from now last rate h k =
    let e : (now - from) + (last - now) ≡ last - from = omega arith in
    omega (arith, ap (λ (t : ℕ). t * rate) e)

Monotonic-le : (from last : ℕ) (times : List ℕ) → Monotonic from times last → from ≤ last
Monotonic-le from last [] h = h
Monotonic-le from last (now ∷ times) h = omega (arith, h.0, Monotonic-le now last times h.1)

-- Calls cannot be admitted beyond what the bucket holds and what is added in the time they take:
-- over any calls at times that do not decrease, each admitted call pays for one token.
pub serve-le_budget :
    (r : RateLimiter) (times : List ℕ) (last : ℕ)
    → Monotonic r.last_refill times last
    → (serve r times).0 * r.one ≤ r.tokens + (last - r.last_refill) * r.refill_rate
unfolding serve
serve-le_budget r [] last h = omega arith
serve-le_budget r (now ∷ times) last h =
    let (answer, r') = acquire r now in
    let (same_one, same_rate, at_now, same_max) = acquire_fixed r now in
    let rest = serve-le_budget r' times last (rw at_now h.1) in
    let rest' : (serve r' times).0 * r.one ≤ r'.tokens + (last - now) * r.refill_rate =
      rw (same_one, same_rate, at_now) at rest in
    ground (
      arith,
      rest',
      acquire_budget r now,
      Monotonic-le now last times h.1,
      elapsed r.last_refill now last r.refill_rate h.0 (Monotonic-le now last times h.1),
    )

-- A bucket that is at most full.
abbrev pub IsBounded : RateLimiter → Type 0
IsBounded r = r.tokens ≤ r.max_tokens * r.one

-- Whatever the calls, the bucket never holds more than its capacity.
pub serve-IsBounded : (r : RateLimiter) (times : List ℕ) → IsBounded r → IsBounded (serve r times).1
unfolding serve
serve-IsBounded r [] h = h
serve-IsBounded r (now ∷ times) h =
    serve-IsBounded (acquire r now).1 times (unfold acquire in ground arith)

-- A call is admitted exactly if a token is available at its time, and then it takes one; a refused
-- call takes nothing.
pub acquire-available_tokens :
    (r : RateLimiter) (now : ℕ)
    → (is_ok (acquire r now).0 ≡ leb r.one (available_tokens r now))
      × ((acquire r now).1.tokens + (if is_ok (acquire r now).0 then r.one else 0)
          ≡ available_tokens r now)
unfolding acquire available_tokens
acquire-available_tokens r now = ground arith
