-- ===== src/Saga/Composition/Tests.antt =====
-- A composition of three sagas, of which the second fails.
use pyfly.Common.{
  String, Bool, true, false, List, [], ◌∷◌, ◌≡◌, refl, str_eq, if◌then◌else◌, insert, lookup,
}
use pyfly.Common.Effects.{external, ok, err, World}
use pyfly.Saga.Composition.{
  SagaResult, Event, executed, undone, complete, process, gather, run_layers, finish, finish_by,
  compensate_completed, execute_layers,
}

-- "pay" has undone its own steps but one, and reports it as DONE.
abbrev answers : World Event SagaResult
answers h (executed name) =
    ok (record { success = if str_eq name "pay" then false else true; done_step_ids = name ∷ [] })
answers h (undone name ids) = err (external 1)

abbrev all_known : String → Bool
all_known name = true

abbrev trip : List (List String)
trip = ("book" ∷ []) ∷ ("pay" ∷ "notify" ∷ []) ∷ ("close" ∷ []) ∷ []

-- "notify" has run and is not compensated.
trip_ends :
    (execute_layers answers all_known trip []).1
    ≡ executed "book"
      ∷ executed "pay"
      ∷ executed "notify"
      ∷ undone "pay" ("pay" ∷ [])
      ∷ undone "book" ("book" ∷ [])
      ∷ []
unfolding execute_layers run_layers gather process finish finish_by compensate_completed complete
    insert lookup
trip_ends = refl
