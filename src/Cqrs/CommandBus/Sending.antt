-- ===== src/Cqrs/CommandBus/Sending.antt =====
-- cqrs/command/bus.py: what stands before the call of a handler, and what a command raises.
use pyfly.Common.{ℕ, String, Option, List, ◌≡◌}
use pyfly.Common.Effects.{Exception, ok, World}
use pyfly.Cqrs.Messages.{Value, Message, Handler, Event}
use pyfly.Cqrs.Registry.{find_command_handler}
use pyfly.Cqrs.Guards.{HasPassed}
use pyfly.Cqrs.CommandBus.{DefaultCommandBus}

module _ (world : World Event Value) (str_of : Exception → String) (events_of : Value → List ℕ)
    (bus : DefaultCommandBus) where
  -- A handler of the command's type has been found after the checks.
  abbrev pub IsAdmitted : Message → Option ℕ → List Event → Type 0
  IsAdmitted command context h =
      HasPassed world str_of command bus.services context h
      × ((handler : Handler) × (find_command_handler command.message_type bus.registry
            ≡ ok handler))
