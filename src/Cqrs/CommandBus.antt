-- ===== src/Cqrs/CommandBus.antt =====
-- cqrs/command/bus.py: the pipeline of a command.
pub mod Publishing
pub mod Sending
use pyfly.Common.{
  ℕ, String, Bool, true, false, Option, none, some, List, [], ◌∷◌, ◌++◌, if◌then◌else◌,
}
use pyfly.Common.Effects.{
  Exception, command_processing, Result, ok, err, World, Act, pure, raise, perform, ◌>>=◌, ◌>>◌,
  try_except, when,
}
use pyfly.Cqrs.Messages.{Value, Message, Handler, Event, correlated, publish, set_correlation_id}
use pyfly.Cqrs.Correlation.{Context}
use pyfly.Cqrs.Registry.{HandlerRegistry, find_command_handler}
use pyfly.Cqrs.Admission.{Services, correlate, check}
use pyfly.Cqrs.Handling.{handle}

pub data EventFailureStrategy : Type 0 where
  log raise_first : EventFailureStrategy

pub record DefaultCommandBus : Type 0 where
  pub registry : HandlerRegistry
  pub services : Services
  pub has_publisher : Bool
  pub event_failure_strategy : EventFailureStrategy

-- A CommandProcessingException is raised as it is, any other exception becomes the cause of one.
abbrev pub wrap_command : Exception → Exception
wrap_command (command_processing cause) = command_processing cause
wrap_command exc = command_processing exc

abbrev pub or_events : List ℕ → List ℕ → List ℕ
or_events [] of_command = of_command
or_events (event ∷ events) of_command = event ∷ events

-- `str_of` is str of an exception, `events_of` the attribute domain_events of a result.
module _ (world : World Event Value) (str_of : Exception → String)
    (events_of : Value → List ℕ) where
  unfoldable pub publish_each : List ℕ → Act Event (List (ℕ × Exception))
  publish_each [] = pure []
  publish_each (event ∷ events) = do
    failed ←
        try_except (do perform world (publish event); pure []) (λ exc. pure ((event, exc) ∷ []))
    failed_events ← publish_each events
    pure (failed ++ failed_events)

  abbrev pub settle_failures : EventFailureStrategy → List (ℕ × Exception) → Act Event (Unit {0})
  settle_failures raise_first ((event, exc) ∷ failed) = raise (command_processing exc)
  settle_failures _ failed = pure tt

  unfoldable pub try_publish_events : EventFailureStrategy → Message → Value → Act Event (Unit {0})
  unfolding publish_each
  try_publish_events strategy command result = do
    failed_events ← publish_each (or_events (events_of result) command.domain_events)
    settle_failures strategy failed_events

  module _ (bus : DefaultCommandBus) where
    unfoldable pub find_handler : String → Act Event Handler
    unfolding find_command_handler
    find_handler message_type h = (find_command_handler message_type bus.registry, h)

    unfoldable pub run_command : Message → Option ℕ → Act Event Value
    unfolding check find_handler handle try_publish_events
    run_command command context = do
      check world str_of bus.services command context
      handler ← find_handler command.message_type
      result ← handle world handler command context
      when bus.has_publisher (try_publish_events bus.event_failure_strategy command result)
      pure result

    -- `_execute`, with the correlation and without the metrics.
    unfoldable pub send :
        String → Message → Option ℕ → Context → List Event → (Result Value × List Event) × Context
    unfolding correlate run_command
    send drawn command context c h =
        let (cid, c') = correlate command drawn c in
        (
          try_except (run_command (set_correlation_id cid command) context)
              (λ exc. raise (wrap_command exc)) (h ++ correlated cid ∷ []),
          c',
        )
