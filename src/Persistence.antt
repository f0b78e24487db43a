-- ===== src/Persistence.antt =====
-- transactional/shared/persistence/memory.py: the states of the transactions, by correlation id. The
-- lock makes each method one step; its clock is an argument. A dict of steps that is absent is empty.
pub mod Cleanup
mod Tests
use pyfly.Common.{
  ℕ, ◌+◌, String, Bool, true, false, ◌||◌, Option, none, some, List, [], ◌∷◌, Dict, lookup, insert,
  delete, length, ltb, str_eq, if◌then◌else◌,
}
use pyfly.Common.Effects.{Result, ok, err, key_error}

pub record State : Type 0 where
  pub correlation_id : String
  pub status : Option String
  pub started_at : Option ℕ
  pub completed_at : Option ℕ
  pub successful : Option Bool
  pub steps : Dict String

-- state.setdefault(key, value)
abbrev pub or_default : {A : Type 0} → Option A → A → Option A
or_default none value = some value
or_default (some old) value = some old

unfoldable pub persist_state : State → ℕ → Dict State → Dict State
unfolding insert
persist_state state now store =
    insert state.correlation_id
      (record state {
        status = or_default state.status "IN_FLIGHT";
        started_at = or_default state.started_at now;
      })
      store

unfoldable pub get_state : String → Dict State → Option State
unfolding lookup
get_state correlation_id store = lookup correlation_id store

unfoldable pub update_step_status : String → String → String → Dict State → Result (Dict State)
unfolding lookup insert
update_step_status correlation_id step_id status store = elim (lookup correlation_id store) [
  | none ↦ err key_error
  | some state ↦
      ok (insert correlation_id (record state { steps = insert step_id status state.steps }) store)
]

abbrev pub completed_state : Bool → ℕ → State → State
completed_state successful now state = record state {
  status = some (if successful then "COMPLETED" else "FAILED");
  successful = some successful;
  completed_at = some now;
}

abbrev pub mark_entry : String → Bool → ℕ → Dict State → Option State → Result (Dict State)
unfolding insert
mark_entry correlation_id successful now store none = err key_error
mark_entry correlation_id successful now store (some state) =
    ok (insert correlation_id (completed_state successful now state) store)

unfoldable pub mark_completed : String → Bool → ℕ → Dict State → Result (Dict State)
unfolding lookup mark_entry
mark_completed correlation_id successful now store =
    mark_entry correlation_id successful now store (lookup correlation_id store)

abbrev pub has_status : String → State → Bool
has_status status state = elim state.status [ none ↦ false | some s ↦ str_eq s status ]

unfoldable pub get_in_flight : Dict State → List State
get_in_flight [] = []
get_in_flight ((id, state) ∷ store) =
    let rest = get_in_flight store in if has_status "IN_FLIGHT" state then state ∷ rest else rest

abbrev pub is_before : Option ℕ → ℕ → Bool
is_before none time = false
is_before (some t) time = ltb t time

unfoldable pub get_stale : (before : ℕ) → Dict State → List State
get_stale before [] = []
get_stale before ((id, state) ∷ store) =
    let rest = get_stale before store in
    if is_before state.started_at before then state ∷ rest else rest

-- Finished, and completed before `now - older_than`.
abbrev pub is_removable : (older_than now : ℕ) → State → Bool
is_removable older_than now state =
    if has_status "COMPLETED" state || has_status "FAILED" state
    then (elim state.completed_at [ none ↦ false | some t ↦ ltb (t + older_than) now ])
    else false

unfoldable pub to_remove : (older_than now : ℕ) → Dict State → List String
to_remove older_than now [] = []
to_remove older_than now ((id, state) ∷ store) =
    let rest = to_remove older_than now store in
    if is_removable older_than now state then id ∷ rest else rest

unfoldable pub delete_all : List String → Dict State → Dict State
unfolding delete
delete_all [] store = store
delete_all (id ∷ ids) store = delete_all ids (delete id store)

unfoldable pub cleanup : (older_than now : ℕ) → Dict State → ℕ × Dict State
unfolding to_remove delete_all
cleanup older_than now store =
    let ids = to_remove older_than now store in (length ids, delete_all ids store)
