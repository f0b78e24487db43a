-- ===== src/Persistence/Tests.antt =====
-- A store with a transaction in flight and an old one that has failed.
use pyfly.Common.{
  ℕ, ◌+◌, String, true, Option, none, some, [], ◌∷◌, ◌≡◌, refl, ◌⊎◌, Dict, IsDict, lookup, keys,
  delete, no_repeats, count-no_repeats, ltb, if◌then◌else◌,
}
use pyfly.Common.Effects.{ok}
use pyfly.Persistence.{State, cleanup, to_remove, delete_all, mark_completed, completed_state}
use pyfly.Persistence.Cleanup.{IsOld, cleanup-IsOld, cleanup-mark_completed}

abbrev state_of : String → String → Option ℕ → State
state_of id status completed_at = record {
  correlation_id = id;
  status = some status;
  started_at = some 1;
  completed_at = completed_at;
  successful = none;
  steps = [];
}

abbrev flying : State
flying = state_of "t1" "IN_FLIGHT" none

abbrev two_transactions : Dict State
two_transactions = ("t1", flying) ∷ ("t2", state_of "t2" "FAILED" (some 3)) ∷ []

two_transactions-IsDict : IsDict two_transactions
unfolding keys no_repeats
two_transactions-IsDict k = count-no_repeats k ("t1" ∷ "t2" ∷ []) refl

one_removed : cleanup 10 20 two_transactions ≡ (1, ("t1", flying) ∷ [])
unfolding cleanup to_remove delete_all delete
one_removed = refl

cleanup-IsOld_example :
    (lookup "t2" two_transactions ≡ none → lookup "t2" (cleanup 10 20 two_transactions).1 ≡ none)
    × ((state : State)
        → lookup "t2" two_transactions ≡ some state
        → ((lookup "t2" (cleanup 10 20 two_transactions).1 ≡ none) × IsOld 10 20 state)
          ⊎ ((lookup "t2" (cleanup 10 20 two_transactions).1 ≡ some state) × ¬ IsOld 10 20 state))
cleanup-IsOld_example = cleanup-IsOld "t2" 10 20 two_transactions two_transactions-IsDict

cleanup-mark_completed_example :
    (store' : Dict State) × (mark_completed "t1" true 15 two_transactions ≡ ok store')
    × (lookup "t1" (cleanup 10 20 store').1
        ≡ (if ltb (15 + 10) 20 then none else some (completed_state true 15 flying)))
unfolding lookup
cleanup-mark_completed_example =
    cleanup-mark_completed "t1" true 10 20 15 two_transactions flying two_transactions-IsDict refl
