-- ===== src/Cqrs/CommandBus/Publishing.antt =====
-- cqrs/command/bus.py: the domain events of a command are all published, whichever of them fails.
use pyfly.Common.{ℕ, String, List, [], ◌∷◌, ◌++◌}
use pyfly.Common.Effects.{Exception, command_processing, Result, ok, err, World}
use pyfly.Cqrs.Messages.{Value, Event, publish}
use pyfly.Cqrs.CommandBus.{EventFailureStrategy, log, raise_first}

module _ (world : World Event Value) (str_of : Exception → String)
    (events_of : Value → List ℕ) where
  -- The events that fail when they are published in turn after a history, with their exceptions.
  unfoldable pub failures : List ℕ → List Event → List (ℕ × Exception)
  failures [] h = []
  failures (event ∷ events) h =
      let rest = failures events (h ++ publish event ∷ []) in
      elim (world h (publish event)) [ ok v ↦ rest | err exc ↦ (event, exc) ∷ rest ]

  -- The first failure decides, if the strategy is to raise.
  abbrev pub outcome : EventFailureStrategy → List (ℕ × Exception) → Result (Unit {0})
  outcome log failed = ok tt
  outcome raise_first [] = ok tt
  outcome raise_first ((event, exc) ∷ failed) = err (command_processing exc)
