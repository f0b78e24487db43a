-- ===== src/Cqrs/QueryBus/Asking.antt =====
-- cqrs/query/bus.py: what stands before an answer, and what a query raises.
use pyfly.Common.{ℕ, String, Option, List, ◌≡◌}
use pyfly.Common.Effects.{Exception, ok, World}
use pyfly.Cqrs.Messages.{Value, Message, Handler, Event}
use pyfly.Cqrs.Registry.{find_query_handler}
use pyfly.Cqrs.Guards.{HasPassed}
use pyfly.Cqrs.QueryBus.{DefaultQueryBus}

module _ (world : World Event Value) (str_of : Exception → String) {S : Type 0}
    (bus : DefaultQueryBus S) where
  -- The services there are have found the query valid and authorized it, and a handler of its type is
  -- registered.
  abbrev pub IsAdmitted : Message → Option ℕ → List Event → Type 0
  IsAdmitted query context h =
      HasPassed world str_of query bus.services context h
      × ((handler : Handler) × (find_query_handler query.message_type bus.registry ≡ ok handler))
