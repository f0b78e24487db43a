-- ===== src/Resilience.antt =====
-- resilience/ and client/: patterns that protect a call.
pub mod RateLimiter
pub mod Bulkhead
pub mod CircuitBreaker
pub mod Retry
pub mod Fallback
mod Tests
