-- ===== src/Saga/Orchestrator.antt =====
-- transactional/saga/engine/execution_orchestrator.py: the steps of a saga, run layer by layer. The
-- tasks of a layer take turns, so the run of a saga is a relation on its states. The registry files
-- each step under its own id. Latencies are not recorded.
mod Turns
mod Invariant
pub mod Order
mod Tests
use pyfly.Common.{
  ℕ, ◌+◌, ◌-◌, ◌*◌, ◌<◌, max, String, Bool, true, false, ◌≡◌, Option, none, some, List, [], ◌∷◌,
  ◌++◌, Dict, lookup, insert, ltb, if◌then◌else◌,
}
use pyfly.Common.Effects.{Exception, Result, ok, err}
use pyfly.Saga.Definitions.{
  StepStatus, pending, running, done, failed, StepDefinition, SagaDefinition,
}
use pyfly.Saga.Topology.{compute_layers, layered}

-- Where the coroutine of one step stands. A number is that of the attempt, then its backoff.
pub data Task : Type 0 where
  waiting returned cancelled : Task
  invoking reporting_success sleeping : (attempt backoff_ms : ℕ) → Task
  reporting_failure raised : Exception → Task

pub record SagaContext (V : Type 0) : Type 0 where
  pub step_statuses : Dict StepStatus
  pub step_results : Dict V
  pub step_attempts : Dict ℕ

-- The local variables of `execute`. `ran` holds the ids of the layers that the loop has left, `layer`
-- and `tasks` are those of the current one. Without a semaphore there are no slots.
pub record Run (V : Type 0) : Type 0 where
  pub ctx : SagaContext V
  pub ran : List String
  pub layer : List String
  pub layers : List (List String)
  pub tasks : Dict Task
  pub slots : Option ℕ
  pub completed_step_ids : List String
  pub outcome : Option (Result (List String))

-- {step_id: list(step_def.depends_on) ...}
unfoldable pub dependencies : Dict StepDefinition → Dict (List String)
dependencies [] = []
dependencies ((id, step_def) ∷ steps) = (id, step_def.depends_on) ∷ dependencies steps

unfoldable pub create : List String → Dict Task → Dict Task
unfolding insert
create [] tasks = tasks
create (id ∷ layer) tasks = create layer (insert id waiting tasks)

abbrev pub has_returned : Task → Bool
has_returned returned = true
has_returned _ = false

unfoldable pub all_returned : Dict Task → Bool
all_returned [] = true
all_returned ((id, task) ∷ tasks) = if has_returned task then all_returned tasks else false

-- What is cancelled after the first exception: the tasks that are still pending. A cancelled task ends at
-- its await; one that swallows the CancelledError and goes on is not modelled.
abbrev pub stop : Task → Task
stop returned = returned
stop (raised e) = raised e
stop _ = cancelled

unfoldable pub stop_all : Dict Task → Dict Task
stop_all [] = []
stop_all ((id, task) ∷ tasks) = (id, stop task) ∷ stop_all tasks

abbrev pub max_retries : StepDefinition → ℕ
max_retries d = max d.retry 1

abbrev pub take_slot : Option ℕ → Option ℕ
take_slot none = none
take_slot (some n) = some (n - 1)

abbrev pub give_slot : Option ℕ → Option ℕ
give_slot none = none
give_slot (some n) = some (n + 1)

abbrev pub has_slot : Option ℕ → Bool
has_slot none = true
has_slot (some n) = ltb 0 n

module _ {V : Type 0} where
  abbrev pub set_task : String → Task → Run V → Run V
  set_task id task r = record r { tasks = insert id task r.tasks }

  abbrev pub set_step_status : String → StepStatus → SagaContext V → SagaContext V
  set_step_status id status ctx = record ctx { step_statuses = insert id status ctx.step_statuses }

  -- `try:` of an attempt, up to the invocation
  unfoldable pub start_attempt : StepDefinition → (attempt backoff_ms : ℕ) → Run V → Run V
  unfolding insert
  start_attempt d attempt backoff_ms r =
      set_task d.id (invoking attempt backoff_ms)
        (record r { ctx = set_step_status d.id running r.ctx })

  -- The step returns.
  unfoldable pub record_result : StepDefinition → (attempt backoff_ms : ℕ) → V → Run V → Run V
  unfolding insert
  record_result d attempt backoff_ms v r =
      set_task d.id (reporting_success attempt backoff_ms) (record r {
        ctx = record r.ctx {
          step_results = insert d.id v r.ctx.step_results;
          step_statuses = insert d.id done r.ctx.step_statuses;
          step_attempts = insert d.id attempt r.ctx.step_attempts;
        };
      })

  -- The events port returns, or there is none.
  unfoldable pub complete : StepDefinition → Run V → Run V
  unfolding insert
  complete d r = set_task d.id returned (record r {
    completed_step_ids = r.completed_step_ids ++ d.id ∷ [];
    slots = give_slot r.slots;
  })

  -- The last attempt has failed.
  abbrev pub give_up : StepDefinition → (attempt : ℕ) → Exception → Run V → Run V
  unfolding insert
  give_up d attempt e r = set_task d.id (reporting_failure e) (record r {
    ctx = record r.ctx {
      step_statuses = insert d.id failed r.ctx.step_statuses;
      step_attempts = insert d.id attempt r.ctx.step_attempts;
    };
  })

  -- `except Exception`, for the step and for the events port after it
  unfoldable pub handle_error :
      StepDefinition → (attempt backoff_ms : ℕ) → Exception → Run V → Run V
  unfolding insert
  handle_error d attempt backoff_ms e r =
      if ltb attempt (max_retries d)
      then set_task d.id (sleeping attempt backoff_ms) r
      else give_up d attempt e r

  -- `raise`, or the exception of the events port in `on_step_failed`
  unfoldable pub reraise : StepDefinition → Exception → Run V → Run V
  unfolding insert
  reraise d e r = set_task d.id (raised e) (record r { slots = give_slot r.slots })

  -- A task's turn, from one await to the next; what is awaited answers with any value or exception.
  -- Where there is no events port, its report returns at once.
  pub data Turn (d : StepDefinition) (r : Run V) : Task → Run V → Type 0 where
    enter :
        has_slot r.slots ≡ true
        → Turn d r waiting (start_attempt d 1 d.backoff_ms (record r { slots = take_slot r.slots }))
    returns : (a b : ℕ) (v : V) → Turn d r (invoking a b) (record_result d a b v r)
    raises : (a b : ℕ) (e : Exception) → Turn d r (invoking a b) (handle_error d a b e r)
    reported : (a b : ℕ) → Turn d r (reporting_success a b) (complete d r)
    report_raises :
        (a b : ℕ) (e : Exception) → Turn d r (reporting_success a b) (handle_error d a b e r)
    wakes : (a b : ℕ) → Turn d r (sleeping a b) (start_attempt d (a + 1) (b * 2) r)
    reraises : (e e' : Exception) → Turn d r (reporting_failure e) (reraise d e' r)

  -- The loop over the layers, and the tasks' turns in any order.
  pub data Step (saga_def : SagaDefinition) (r : Run V) : Run V → Type 0 where
    open_layer :
        (l : List String) (ls : List (List String))
        → all_returned r.tasks ≡ true
        → r.layers ≡ l ∷ ls
        → Step saga_def r
            (record r { ran = r.ran ++ r.layer; layer = l; layers = ls; tasks = create l [] })
    turn :
        (d : StepDefinition) (task : Task) (r' : Run V)
        → lookup d.id saga_def.steps ≡ some d
        → lookup d.id r.tasks ≡ some task
        → Turn d r task r'
        → Step saga_def r r'
    raise_first :
        (id : String) (e : Exception)
        → lookup id r.tasks ≡ some (raised e)
        → Step saga_def r (record r { tasks = stop_all r.tasks; outcome = some (err e) })
    finish :
        all_returned r.tasks ≡ true
        → r.layers ≡ []
        → Step saga_def r (record r { outcome = some (ok r.completed_step_ids) })

  unfoldable pub initial : SagaDefinition → List (List String) → Run V
  initial saga_def layers = record {
    ctx = record { step_statuses = []; step_results = []; step_attempts = [] };
    ran = [];
    layer = [];
    layers = layers;
    tasks = [];
    slots = if ltb 0 saga_def.layer_concurrency then some saga_def.layer_concurrency else none;
    completed_step_ids = [];
    outcome = none;
  }

  -- The states that an execution goes through until it returns or raises.
  pub data Reach (saga_def : SagaDefinition) : Run V → Type 0 where
    begin :
        (layers : List (List String))
        → compute_layers (dependencies saga_def.steps) ≡ some (layered layers)
        → Reach saga_def (initial saga_def layers)
    next :
        {r r' : Run V}
        → Reach saga_def r
        → r.outcome ≡ none
        → Step saga_def r r'
        → Reach saga_def r'
