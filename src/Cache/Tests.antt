-- ===== src/Cache/Tests.antt =====
-- A cache on concrete inputs.
use pyfly.Common.{
  ℕ, none, some, List, [], ◌∷◌, ◌≡◌, refl, Dict, IsDict, lookup, insert, delete, keys, no_repeats,
  count-no_repeats, arith,
}
use pyfly.Common.Effects.{err, external}
use pyfly.Cache.Manager.{CacheAdapter}
use pyfly.Cache.{
  Entry, Call, put_call, get_call, evict_call, get, get_entry, get_keys, call_all, call, put, evict,
  exists, exists_entry,
}
use pyfly.Cache.Expiry.{live, all_meant, call_all-live}

-- One value is overwritten, one expires and is purged, one is evicted.
abbrev calls : List (ℕ × Call ℕ)
calls =
    (1, put_call "a" 10 (some 5))
    ∷ (2, put_call "b" 20 (some 3))
    ∷ (3, put_call "a" 11 none)
    ∷ (4, put_call "c" 30 none)
    ∷ (6, get_call "b")
    ∷ (7, evict_call "c")
    ∷ []

call_all-live_example : (get "a" 9 (call_all calls [])).0 ≡ live 9 (all_meant calls (λ k. none) "a")
call_all-live_example = call_all-live calls 0 9 "a" (
  omega arith,
  (omega arith, (omega arith, (omega arith, (omega arith, (omega arith, omega arith))))),
)

overwritten_found : (get "a" 9 (call_all calls [])).0 ≡ some 11
unfolding call_all call get get_entry put evict exists exists_entry lookup insert delete
overwritten_found = refl

-- At the very tick at which it expires, an entry is found and is not listed.
abbrev at_expiry : Dict (Entry ℕ)
at_expiry = ("a", record { value = 1; expires_at = some 5 }) ∷ []

found_not_listed : ((get "a" 5 at_expiry).0 ≡ some 1) × (get_keys 5 at_expiry ≡ [])
unfolding get get_entry get_keys lookup delete
found_not_listed = (refl, refl)

at_expiry-IsDict : IsDict at_expiry
unfolding keys no_repeats
at_expiry-IsDict k = count-no_repeats k ("a" ∷ []) refl

abbrev unreachable : CacheAdapter (Unit {0}) ℕ
unreachable = record {
  get = λ key s. (err (external 1), s);
  put = λ key value ttl s. (err (external 1), s);
  evict = λ key s. (err (external 1), s);
  clear = λ s. (err (external 1), s);
}
