-- ===== src/Cache/Manager.antt =====
-- cache/manager.py: two caches, of which the primary may fail at any operation. The time to live and
-- the time of the call are handed on to both.
use pyfly.Cache.{Entry, get, put, evict}
use pyfly.Common.{ℕ, [], Dict, String, Bool, ◌||◌, Option, none, some}
use pyfly.Common.Effects.{Result, ok, err}

-- The operations of a cache with states `S`.
pub record CacheAdapter (S V : Type 0) : Type 0 where
  pub get : String → S → Result (Option V) × S
  pub put : String → V → Option ℕ → S → Result (Unit {0}) × S
  pub evict : String → S → Result Bool × S
  pub clear : S → Result (Unit {0}) × S

-- InMemoryCache as such a cache: its state is the time and the store.
unfoldable pub in_memory : {V : Type 0} → CacheAdapter (ℕ × Dict (Entry V)) V
unfolding get put evict
in_memory = record {
  get = λ key (now, store). let (v, store') = get key now store in (ok v, (now, store'));
  put = λ key value ttl (now, store). (ok tt, (now, put key value ttl now store));
  evict = λ key (now, store). let (found, store') = evict key store in (ok found, (now, store'));
  clear = λ (now, store). (ok tt, (now, []));
}

-- primary_result or fallback_result; what the fallback raises is raised.
abbrev pub or_else : Result Bool → Result Bool → Result Bool
or_else primary_result (err exc) = err exc
or_else (ok primary_result) (ok fallback_result) = ok (primary_result || fallback_result)
or_else (err _) (ok fallback_result) = ok fallback_result

module _ {P F V : Type 0} (primary : CacheAdapter P V) (fallback : CacheAdapter F V) where
  -- After the primary's answer.
  unfoldable pub get_fallback : String → P → F → Result (Option V) → Result (Option V) × P × F
  get_fallback key p f (ok (some result)) = (ok (some result), p, f)
  get_fallback key p f (ok none) = let (r, f') = fallback.get key f in (r, p, f')
  get_fallback key p f (err exc) = let (r, f') = fallback.get key f in (r, p, f')

  unfoldable pub manager_get : String → P → F → Result (Option V) × P × F
  unfolding get_fallback
  manager_get key p f = let (r, p') = primary.get key p in get_fallback key p' f r

  -- What the primary raises is only logged.
  unfoldable pub manager_put : String → V → Option ℕ → P → F → Result (Unit {0}) × P × F
  manager_put key value ttl p f =
      let (r, p') = primary.put key value ttl p in
      let (s, f') = fallback.put key value ttl f in (s, p', f')

  unfoldable pub manager_evict : String → P → F → Result Bool × P × F
  manager_evict key p f =
      let (r, p') = primary.evict key p in
      let (s, f') = fallback.evict key f in (or_else r s, p', f')

  unfoldable pub manager_clear : P → F → Result (Unit {0}) × P × F
  manager_clear p f = let (r, p') = primary.clear p in let (s, f') = fallback.clear f in (s, p', f')

-- What a read of the manager answers, by the primary's answer and what was last written.
abbrev pub answer_of : {V : Type 0} → Result (Option V) → Option V → Result (Option V)
answer_of (ok (some value)) last = ok (some value)
answer_of (ok none) last = ok last
answer_of (err exc) last = ok last
