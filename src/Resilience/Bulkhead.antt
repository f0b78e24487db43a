-- ===== src/Resilience/Bulkhead.antt =====
-- resilience/bulkhead.py: at most `max_concurrent` calls at a time, refused and not queued beyond.
use pyfly.Common.{ℕ, ◌+◌, ◌-◌, ◌≤◌, ◌<◌, ◌≡◌, leb, ◌==◌, if◌then◌else◌, arith}

pub record Bulkhead : Type 0 where
  pub max_concurrent : ℕ
  pub active : ℕ
  -- the value of the asyncio.Semaphore
  pub semaphore : ℕ

unfoldable pub new : ℕ → Bulkhead
new max_concurrent = record {
  max_concurrent = max_concurrent;
  active = 0;
  semaphore = max_concurrent;
}

-- BulkheadException, a wait for the semaphore, or a slot.
pub data Acquire : Type 0 where
  refused waits : Acquire
  admitted : Bulkhead → Acquire

unfoldable pub acquire : Bulkhead → Acquire
acquire b =
    if leb b.max_concurrent b.active
    then refused
    else if b.semaphore == 0
    then waits
    else admitted (record b { semaphore = b.semaphore - 1; active = b.active + 1 })

-- Called once for each acquired slot, so `active` is not zero.
unfoldable pub release : Bulkhead → Bulkhead
release b = record b { active = b.active - 1; semaphore = b.semaphore + 1 }

unfoldable pub available_slots : Bulkhead → ℕ
available_slots b = b.max_concurrent - b.active

-- `sync_wrapper` counts its call without the semaphore.
unfoldable pub enter_sync : Bulkhead → Acquire
enter_sync b =
    if leb b.max_concurrent b.active then refused else admitted (record b { active = b.active + 1 })

unfoldable pub exit_sync : Bulkhead → Bulkhead
exit_sync b = record b { active = b.active - 1 }

-- A bulkhead with its async and its sync calls in flight.
pub record Load : Type 0 where
  pub bulkhead : Bulkhead
  pub async_calls : ℕ
  pub sync_calls : ℕ

-- The wrapped calls, begun and ended in any order.
pub data Step : Load → Load → Type 0 where
  begin_async :
      (l : Load) (b : Bulkhead)
      → acquire l.bulkhead ≡ admitted b
      → Step l (record l { bulkhead = b; async_calls = l.async_calls + 1 })
  end_async :
      (l : Load)
      → 0 < l.async_calls
      → Step l (record l { bulkhead = release l.bulkhead; async_calls = l.async_calls - 1 })
  begin_sync :
      (l : Load) (b : Bulkhead)
      → enter_sync l.bulkhead ≡ admitted b
      → Step l (record l { bulkhead = b; sync_calls = l.sync_calls + 1 })
  end_sync :
      (l : Load)
      → 0 < l.sync_calls
      → Step l (record l { bulkhead = exit_sync l.bulkhead; sync_calls = l.sync_calls - 1 })

pub data Reach (max_concurrent : ℕ) : Load → Type 0 where
  start :
      Reach max_concurrent
        (record { bulkhead = new max_concurrent; async_calls = 0; sync_calls = 0 })
  next : {l l' : Load} → Reach max_concurrent l → Step l l' → Reach max_concurrent l'

pub record IsCounted (max_concurrent : ℕ) (l : Load) : Type 0 where
  pub same_max : l.bulkhead.max_concurrent ≡ max_concurrent
  pub counted : l.bulkhead.active ≡ l.async_calls + l.sync_calls
  pub slots : l.bulkhead.semaphore + l.async_calls ≡ max_concurrent
  pub bounded : l.async_calls + l.sync_calls ≤ max_concurrent

Step-IsCounted :
    {max_concurrent : ℕ} {l l' : Load}
    → Step l l'
    → IsCounted max_concurrent l
    → IsCounted max_concurrent l'
unfolding acquire enter_sync release exit_sync
Step-IsCounted (begin_async l b e) h = ground arith
Step-IsCounted (end_async l pos) h = ground arith
Step-IsCounted (begin_sync l b e) h = ground arith
Step-IsCounted (end_sync l pos) h = ground arith

-- However wrapped calls begin and end, there are never more in flight than the bulkhead allows, and
-- its count and its semaphore agree with them.
pub Reach-IsCounted :
    {max_concurrent : ℕ} {l : Load} → Reach max_concurrent l → IsCounted max_concurrent l
unfolding new
Reach-IsCounted start = ground arith
Reach-IsCounted (next r st) = Step-IsCounted st (Reach-IsCounted r)

-- Whenever a call asks for a slot, it is refused if the bulkhead is full and admitted otherwise; it
-- never waits for the semaphore.
pub acquire-Reach :
    {max_concurrent : ℕ} (l : Load)
    → Reach max_concurrent l
    → (l.async_calls + l.sync_calls ≡ max_concurrent → acquire l.bulkhead ≡ refused)
      × (l.async_calls + l.sync_calls < max_concurrent
          → (b : Bulkhead) × (acquire l.bulkhead ≡ admitted b))
unfolding acquire
acquire-Reach l r =
    let inv = Reach-IsCounted r in
    (
      λ full. ground (arith, inv),
      λ free. (
        record l.bulkhead { semaphore = l.bulkhead.semaphore - 1; active = l.bulkhead.active + 1 },
        ground (arith, inv),
      ),
    )
