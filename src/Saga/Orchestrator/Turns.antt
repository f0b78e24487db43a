-- ===== src/Saga/Orchestrator/Turns.antt =====
-- What a turn of one task changes, and what it leaves alone.
use pyfly.Common.{
  ℕ, ◌+◌, ◌*◌, ◌≤◌, ◌<◌, String, true, false, ◌≡◌, refl, Option, some, [], ◌∷◌, Dict, lookup,
  insert, count, count-append, lookup-insert, str_eq, eq_iff, ltb, if◌then◌else◌, arith,
}
use pyfly.Common.Effects.{Exception}
use pyfly.Saga.Definitions.{StepStatus, running, done, failed, StepDefinition}
use pyfly.Saga.Orchestrator.{
  Task, returned, invoking, reporting_success, sleeping, reporting_failure, raised, Run,
  max_retries, take_slot, start_attempt, record_result, complete, give_up, set_task, handle_error,
  reraise, Turn, enter, returns, raises, reported, report_raises, wakes, reraises,
}

status_elsewhere :
    (id k : String) (s : StepStatus) (d : Dict StepStatus)
    → str_eq id k ≡ false
    → lookup k (insert id s d) ≡ lookup k d
status_elsewhere id k s d differ = ground (arith, lookup-insert id k s d)

status_here :
    (id : String) (s : StepStatus) (d : Dict StepStatus) → lookup id (insert id s d) ≡ some s
status_here id s d = ground (arith, lookup-insert id id s d, eq_iff id id)

module _ {V : Type 0} where
  abbrev pub IsComplete : Run V → String → Type 0
  IsComplete r k = (lookup k r.ctx.step_statuses ≡ some done) × (0 < count k r.completed_step_ids)

  -- A task that reports a success stands on the status DONE, and one that has returned on the list of
  -- the completed steps too.
  abbrev pub IsBacked : Run V → String → Task → Type 0
  IsBacked r k returned = IsComplete r k
  IsBacked r k (reporting_success a b) = lookup k r.ctx.step_statuses ≡ some done
  IsBacked r k _ = Unit

  -- A turn of the task of step `id`: everything else is left alone.
  pub record IsTurn (id : String) (r r' : Run V) : Type 0 where
    pub task : Task
    pub tasks : r'.tasks ≡ insert id task r.tasks
    pub same_ran : r'.ran ≡ r.ran
    pub same_layer : r'.layer ≡ r.layer
    pub same_layers : r'.layers ≡ r.layers
    pub same_outcome : r'.outcome ≡ r.outcome
    pub statuses :
        (k : String)
        → str_eq id k ≡ false
        → lookup k r'.ctx.step_statuses ≡ lookup k r.ctx.step_statuses
    pub completed : (k : String) → count k r.completed_step_ids ≤ count k r'.completed_step_ids
    pub is_backed : IsBacked r' id task

  start_attempt-IsTurn :
      (d : StepDefinition) (a b : ℕ) (r : Run V) (slots : Option ℕ)
      → IsTurn d.id r (start_attempt d a b (record r { slots = slots }))
  unfolding start_attempt
  start_attempt-IsTurn d a b r slots = record {
    task = invoking a b;
    tasks = refl;
    same_ran = refl;
    same_layer = refl;
    same_layers = refl;
    same_outcome = refl;
    statuses = λ k differ. status_elsewhere d.id k running r.ctx.step_statuses differ;
    completed = λ k. omega arith;
    is_backed = tt;
  }

  record_result-IsTurn :
      (d : StepDefinition) (a b : ℕ) (v : V) (r : Run V) → IsTurn d.id r (record_result d a b v r)
  unfolding record_result
  record_result-IsTurn d a b v r = record {
    task = reporting_success a b;
    tasks = refl;
    same_ran = refl;
    same_layer = refl;
    same_layers = refl;
    same_outcome = refl;
    statuses = λ k differ. status_elsewhere d.id k done r.ctx.step_statuses differ;
    completed = λ k. omega arith;
    is_backed = status_here d.id done r.ctx.step_statuses;
  }

  complete-IsTurn :
      (d : StepDefinition) (r : Run V)
      → lookup d.id r.ctx.step_statuses ≡ some done
      → IsTurn d.id r (complete d r)
  unfolding complete count
  complete-IsTurn d r is_done = record {
    task = returned;
    tasks = refl;
    same_ran = refl;
    same_layer = refl;
    same_layers = refl;
    same_outcome = refl;
    statuses = λ k differ. refl;
    completed = λ k. ground (arith, count-append k r.completed_step_ids (d.id ∷ []));
    is_backed = (
      is_done,
      ground (arith, eq_iff d.id d.id, count-append d.id r.completed_step_ids (d.id ∷ [])),
    );
  }

  handle_error-IsTurn :
      (d : StepDefinition) (a b : ℕ) (e : Exception) (r : Run V)
      → IsTurn d.id r (handle_error d a b e r)
  unfolding handle_error
  handle_error-IsTurn d a b e r =
      elim (ltb a (max_retries d))
        as (λ again.
          IsTurn d.id r (if again then set_task d.id (sleeping a b) r else give_up d a e r)) [
            | true ↦ record {
              task = sleeping a b;
              tasks = refl;
              same_ran = refl;
              same_layer = refl;
              same_layers = refl;
              same_outcome = refl;
              statuses = λ k differ. refl;
              completed = λ k. omega arith;
              is_backed = tt;
            }
            | false ↦ record {
              task = reporting_failure e;
              tasks = refl;
              same_ran = refl;
              same_layer = refl;
              same_layers = refl;
              same_outcome = refl;
              statuses = λ k differ. status_elsewhere d.id k failed r.ctx.step_statuses differ;
              completed = λ k. omega arith;
              is_backed = tt;
            }
          ]

  reraise-IsTurn : (d : StepDefinition) (e : Exception) (r : Run V) → IsTurn d.id r (reraise d e r)
  unfolding reraise
  reraise-IsTurn d e r = record {
    task = raised e;
    tasks = refl;
    same_ran = refl;
    same_layer = refl;
    same_layers = refl;
    same_outcome = refl;
    statuses = λ k differ. refl;
    completed = λ k. omega arith;
    is_backed = tt;
  }

  pub Turn-IsTurn :
      (d : StepDefinition) (r r' : Run V) (t : Task)
      → IsBacked r d.id t
      → Turn d r t r'
      → IsTurn d.id r r'
  Turn-IsTurn d r r' t b (enter free) = start_attempt-IsTurn d 1 d.backoff_ms r (take_slot r.slots)
  Turn-IsTurn d r r' t b (returns a w v) = record_result-IsTurn d a w v r
  Turn-IsTurn d r r' t b (raises a w e) = handle_error-IsTurn d a w e r
  Turn-IsTurn d r r' t b (reported a w) = complete-IsTurn d r b
  Turn-IsTurn d r r' t b (report_raises a w e) = handle_error-IsTurn d a w e r
  Turn-IsTurn d r r' t b (wakes a w) = start_attempt-IsTurn d (a + 1) (w * 2) r r.slots
  Turn-IsTurn d r r' t b (reraises e e') = reraise-IsTurn d e' r
