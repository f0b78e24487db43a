-- ===== src/Saga/Composition/Failing.antt =====
-- transactional/saga/composition/compositor.py: which sagas a composition has run, and which it compensates.
use pyfly.Common.{
  String, Bool, true, false, Option, none, some, List, [], ◌∷◌, ◌++◌, map, reverse, concat, ◌≡◌,
  ◌⊎◌,
}
use pyfly.Common.Effects.{Exception, runtime_error, Result, World}
use pyfly.Saga.Composition.{
  SagaResult, Event, executed, CompositionContext, complete, fail, process, gather, run_layers,
}
use pyfly.Saga.Composition.Processing.{AllSucceeded, Stopped}

module _ (world : World Event SagaResult) (registered : String → Bool) where
  -- The run has ended in a layer: all of it is executed, as are the layers before it, which have all
  -- succeeded, and none after.
  pub record Broken (layers : List (List String)) (completed completed' : List String)
      (h h' : List Event) : Type 0 where
    pub earlier : List (List String)
    pub layer : List String
    pub later : List (List String)
    pub split : layers ≡ earlier ++ layer ∷ later
    pub good : AllSucceeded (gather world registered (concat earlier) h).0
    pub stopped :
        Stopped
          (gather world registered layer (gather world registered (concat earlier) h).1).0
          (completed ++ concat earlier)
          completed'
    pub history : h' ≡ h ++ map executed (concat earlier ++ layer)

  abbrev pub Ran :
      List (List String)
      → CompositionContext
      → List Event
      → CompositionContext × List Event
      → Type 0
  Ran layers ctx h (ctx', h') =
      ((ctx'.error ≡ none)
        × AllSucceeded (gather world registered (concat layers) h).0
        × (ctx'.completed_sagas ≡ ctx.completed_sagas ++ concat layers)
        × (h' ≡ h ++ map executed (concat layers)))
      ⊎ (((exc : Exception) × (ctx'.error ≡ some exc))
          × Broken layers ctx.completed_sagas ctx'.completed_sagas h h')

  after_layer :
      List (List String)
      → CompositionContext
      → List Event
      → Option Exception
      → CompositionContext × List Event
  unfolding run_layers
  after_layer layers ctx' h' o = elim o [
    | none ↦ run_layers world registered layers ctx' h'
    | some exc ↦ (ctx', h')
  ]

  after_result :
      String
      → SagaResult
      → List (String × Result SagaResult)
      → CompositionContext
      → Bool
      → CompositionContext
  unfolding process complete
  after_result name result results ctx true = process results (complete name result ctx)
  after_result name result results ctx false = fail runtime_error (complete name result ctx)

  -- The sagas that are compensated after a run with this error and these completed sagas.
  abbrev pub undone_after : Option Exception → List String → List String
  undone_after none completed = []
  undone_after (some exc) completed = reverse completed
