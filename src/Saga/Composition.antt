-- ===== src/Saga/Composition.antt =====
-- transactional/saga/composition: compositor.py and compensation_manager.py, sagas in layers. The sagas of a layer run one
-- after another here, each to its end. How the input of a saga is put together is left out.
pub mod Processing
mod Gathering
pub mod Failing
mod Tests
use pyfly.Common.{
  String, Bool, true, false, Option, none, some, List, [], ◌∷◌, ◌++◌, reverse, Dict, lookup, insert,
  is_empty, if◌then◌else◌,
}
use pyfly.Common.Effects.{Exception, value_error, runtime_error, Result, ok, err, World}
use pyfly.Saga.Topology.{Layering, layered, compute_layers}

-- What SagaEngine.execute answers: whether the saga succeeded, and the steps whose outcome is DONE.
pub record SagaResult : Type 0 where
  pub success : Bool
  pub done_step_ids : List String

-- The calls of the saga engine and of its compensator.
pub data Event : Type 0 where
  executed : String → Event
  undone : String → (completed_step_ids : List String) → Event

pub record CompositionContext : Type 0 where
  pub saga_results : Dict SagaResult
  pub completed_sagas : List String
  pub compensated_sagas : List String
  pub error : Option Exception

abbrev pub complete : String → SagaResult → CompositionContext → CompositionContext
unfolding insert
complete saga_name result ctx = record ctx {
  saga_results = insert saga_name result ctx.saga_results;
  completed_sagas = ctx.completed_sagas ++ saga_name ∷ [];
}

abbrev pub fail : Exception → CompositionContext → CompositionContext
fail exc ctx = record ctx { error = some exc }

-- The loop over the results of a layer.
unfoldable pub process : List (String × Result SagaResult) → CompositionContext → CompositionContext
unfolding complete
process [] ctx = ctx
process ((saga_name, err exc) ∷ results) ctx = fail exc ctx
process ((saga_name, ok result) ∷ results) ctx = elim result.success [
  | true ↦ process results (complete saga_name result ctx)
  | false ↦ fail runtime_error (complete saga_name result ctx)
]

abbrev pub started : CompositionContext
started = record { saga_results = []; completed_sagas = []; compensated_sagas = []; error = none }

-- `registered` is whether the registry knows a saga.
module _ (world : World Event SagaResult) (registered : String → Bool) where
  -- asyncio.gather(..., return_exceptions=True)
  unfoldable pub gather : List String → List Event → List (String × Result SagaResult) × List Event
  gather [] h = ([], h)
  gather (saga_name ∷ layer) h =
      let (results, h') = gather layer (h ++ executed saga_name ∷ []) in
      ((saga_name, world h (executed saga_name)) ∷ results, h')

  unfoldable pub run_layers :
      List (List String) → CompositionContext → List Event → CompositionContext × List Event
  unfolding gather process
  run_layers [] ctx h = (ctx, h)
  run_layers (layer ∷ layers) ctx h =
      let (results, h') = gather layer h in
      let ctx' = process results ctx in
      elim ctx'.error [ none ↦ run_layers layers ctx' h' | some exc ↦ (ctx', h') ]

  abbrev pub steps_of : Option SagaResult → List String
  steps_of none = []
  steps_of (some result) = result.done_step_ids

  abbrev pub undo : String → List String → List Event
  undo saga_name step_ids =
      if registered saga_name
      then (if is_empty step_ids then [] else undone saga_name step_ids ∷ [])
      else []

  -- The loop of compensate_completed, over the reversed names; what a compensation raises is only logged.
  unfoldable pub compensate_completed :
      List String → CompositionContext → List Event → CompositionContext × List Event
  unfolding lookup
  compensate_completed [] ctx h = (ctx, h)
  compensate_completed (saga_name ∷ names) ctx h =
      compensate_completed names
        (record ctx { compensated_sagas = ctx.compensated_sagas ++ saga_name ∷ [] })
        (h ++ undo saga_name (steps_of (lookup saga_name ctx.saga_results)))

  unfoldable pub finish_by :
      CompositionContext → List Event → Option Exception → CompositionContext × List Event
  unfolding compensate_completed
  finish_by ctx h none = (ctx, h)
  finish_by ctx h (some exc) = compensate_completed (reverse ctx.completed_sagas) ctx h

  unfoldable pub finish : CompositionContext × List Event → CompositionContext × List Event
  unfolding finish_by
  finish (ctx, h) = finish_by ctx h ctx.error

  unfoldable pub execute_layers : List (List String) → List Event → CompositionContext × List Event
  unfolding run_layers finish
  execute_layers layers h = finish (run_layers layers started h)

  -- `execute`, for the dependencies of a composition's entries.
  unfoldable pub execute :
      Dict (List String) → List Event → Result (CompositionContext × List Event)
  unfolding compute_layers execute_layers
  execute deps h = elim (compute_layers deps) [
    | some (layered layers) ↦ ok (execute_layers layers h)
    | _ ↦ err value_error
  ]
