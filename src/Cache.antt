-- ===== src/Cache.antt =====
-- cache/adapters/memory.py and session/adapters/memory.py: values that expire. Times are ticks of the
-- monotonic clock, and each operation is given the time at which it is called. A key that has expired
-- is deleted when it is next looked up.
pub mod Expiry
pub mod Manager
mod Tests
use pyfly.Common.{
  ℕ, ◌+◌, String, Bool, true, false, Option, none, some, List, [], ◌∷◌, Dict, lookup, insert,
  delete, ltb, if◌then◌else◌, length,
}

pub record Entry (V : Type 0) : Type 0 where
  pub value : V
  pub expires_at : Option ℕ

-- time.monotonic() > expires_at
abbrev pub has_expired : Option ℕ → ℕ → Bool
has_expired none now = false
has_expired (some expires_at) now = ltb expires_at now

-- exp is None or exp > now
abbrev pub is_active : Option ℕ → ℕ → Bool
is_active none now = true
is_active (some exp) now = ltb now exp

-- The operations that may change a store.
pub data Call (V : Type 0) : Type 0 where
  get_call exists_call evict_call pop_call : String → Call V
  put_call : String → V → Option ℕ → Call V
  save_call : String → V → ℕ → Call V
  clear_call : Call V

-- When a value put at `now` expires.
abbrev pub expiry : Option ℕ → ℕ → Option ℕ
expiry none now = none
expiry (some ttl) now = some (now + ttl)

module _ {V : Type 0} where
  unfoldable pub get_entry :
      String → ℕ → Dict (Entry V) → Option (Entry V) → Option V × Dict (Entry V)
  unfolding delete
  get_entry key now store none = (none, store)
  get_entry key now store (some entry) =
      if has_expired entry.expires_at now
      then (none, delete key store)
      else (some entry.value, store)

  unfoldable pub get : String → ℕ → Dict (Entry V) → Option V × Dict (Entry V)
  unfolding lookup get_entry
  get key now store = get_entry key now store (lookup key store)

  unfoldable pub put : String → V → Option ℕ → ℕ → Dict (Entry V) → Dict (Entry V)
  unfolding insert
  put key value ttl now store =
      insert key (record { value = value; expires_at = expiry ttl now }) store

  abbrev pub is_found : Option (Entry V) → Bool
  is_found none = false
  is_found (some _) = true

  unfoldable pub evict : String → Dict (Entry V) → Bool × Dict (Entry V)
  unfolding lookup delete
  evict key store = if is_found (lookup key store) then (true, delete key store) else (false, store)

  unfoldable pub exists_entry :
      String → ℕ → Dict (Entry V) → Option (Entry V) → Bool × Dict (Entry V)
  unfolding delete
  exists_entry key now store none = (false, store)
  exists_entry key now store (some entry) =
      if has_expired entry.expires_at now then (false, delete key store) else (true, store)

  unfoldable pub exists : String → ℕ → Dict (Entry V) → Bool × Dict (Entry V)
  unfolding lookup exists_entry
  exists key now store = exists_entry key now store (lookup key store)

  unfoldable pub get_keys : ℕ → Dict (Entry V) → List String
  get_keys now [] = []
  get_keys now ((k, entry) ∷ store) =
      let rest = get_keys now store in if is_active entry.expires_at now then k ∷ rest else rest

  -- The `size` of `get_stats`.
  unfoldable pub size : ℕ → Dict (Entry V) → ℕ
  size now [] = 0
  size now ((k, entry) ∷ store) = (if is_active entry.expires_at now then 1 else 0) + size now store

  -- InMemorySessionStore: the time to live is not optional, and a missing id may be deleted.
  unfoldable pub save : String → V → (ttl : ℕ) → ℕ → Dict (Entry V) → Dict (Entry V)
  unfolding put
  save session_id value ttl now store = put session_id value (some ttl) now store

  unfoldable pub pop : String → Dict (Entry V) → Dict (Entry V)
  unfolding delete
  pop session_id store = delete session_id store

  unfoldable pub call : Call V → ℕ → Dict (Entry V) → Dict (Entry V)
  unfolding get exists evict pop put save
  call (get_call key) now store = (get key now store).1
  call (exists_call key) now store = (exists key now store).1
  call (evict_call key) now store = (evict key store).1
  call (pop_call key) now store = pop key store
  call (put_call key value ttl) now store = put key value ttl now store
  call (save_call key value ttl) now store = save key value ttl now store
  call clear_call now store = []

  -- Calls made at the given times.
  unfoldable pub call_all : List (ℕ × Call V) → Dict (Entry V) → Dict (Entry V)
  unfolding call
  call_all [] store = store
  call_all ((now, c) ∷ calls) store = call_all calls (call c now store)
