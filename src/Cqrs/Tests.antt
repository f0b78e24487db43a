-- ===== src/Cqrs/Tests.antt =====
-- A command that creates an order and a query that reads it.
use pyfly.Common.{
  ℕ, String, true, false, none, some, List, [], ◌∷◌, ◌++◌, Dict, lookup, insert, ◌≡◌, refl, arith,
  if◌then◌else◌, ◌==◌,
}
use pyfly.Common.Effects.{Exception, external, ok, err, World}
use pyfly.Cache.{Entry, get, put, get_entry}
use pyfly.Cache.Manager.{CacheAdapter, in_memory}
use pyfly.Cqrs.ValidationResult
use pyfly.Cqrs.Messages.{
  Value, nothing, object, Message, Handler, Event, validate, authorize, pre_process, do_handle,
  post_process, on_success, publish,
}
use pyfly.Cqrs.Correlation.{cleared}
use pyfly.Cqrs.Registry.{
  HandlerRegistry, register_command_handler, register_query_handler, find_command_handler,
  find_query_handler,
}
use pyfly.Cqrs.Registry
use pyfly.Cqrs.Admission.{
  Services, validate_custom, process, validate_message, evaluate, authorize_message, authorize_with,
  check,
}
use pyfly.Cqrs.Handling.{handle}
use pyfly.Cqrs.CommandBus.{DefaultCommandBus, raise_first}
use pyfly.Cqrs.CommandBus.Sending
use pyfly.Cqrs.QueryBus.{
  DefaultQueryBus, cache_key_of, try_cache_get, try_cache_put, find_handler, admit, run_handler,
  serve, run_query, ask,
}
use pyfly.Cqrs.QueryBus.Asking
use pyfly.Cqrs.QueryBus.Down.{answer, with_cache, ask-IsDown}
use pyfly.Cqrs.QueryBus.Caching.{run_query-run_query}

abbrev create_order : Message
create_order = record {
  message_type = "CreateOrder";
  correlation_id = none;
  structural = ValidationResult.success;
  has_validate = true;
  has_authorize = true;
  has_authorize_with_context = false;
  cacheable = true;
  cache_key = some "order:1";
  domain_events = 7 ∷ 8 ∷ 9 ∷ [];
}

abbrev order_handler : Handler
order_handler = record {
  id = 1;
  handled_type = some "CreateOrder";
  supports_caching = true;
  cache_ttl_seconds = some 60;
}

-- The handler answers with an object, and the event 8 cannot be published.
abbrev shop : World Event Value
shop h (do_handle handler message context) = ok (object 5)
shop h (publish event) = if event == 8 then err (external 2) else ok nothing
shop h _ = ok nothing

abbrev text_of : Exception → String
text_of exc = "failed"

abbrev no_events : Value → List ℕ
no_events result = []

unfoldable handlers : HandlerRegistry
handlers =
    register_query_handler order_handler (register_command_handler order_handler Registry.new)

abbrev all_services : Services
all_services = record { validates = true; authorizes = some true }

unfoldable commands : DefaultCommandBus
commands = record {
  registry = handlers;
  services = all_services;
  has_publisher = true;
  event_failure_strategy = raise_first;
}

unfoldable queries : DefaultQueryBus (ℕ × Dict (Entry Value))
queries = record {
  registry = handlers;
  services = all_services;
  cache = some in_memory;
  default_cache_ttl = 900;
}

abbrev broken : CacheAdapter (ℕ × Dict (Entry Value)) Value
broken = record {
  get = λ key s. (err (external 1), s);
  put = λ key value ttl s. (err (external 1), s);
  evict = λ key s. (err (external 1), s);
  clear = λ s. (err (external 1), s);
}

ask-IsDown_example :
    answer (
      ask shop text_of (with_cache (some broken) queries) "id" create_order none cleared (0, []) [])
    ≡ answer (ask shop text_of (with_cache none queries) "id" create_order none cleared (0, []) [])
ask-IsDown_example =
    ask-IsDown shop text_of queries broken "id" create_order none cleared (0, []) []
      (λ key s. (external 1, refl))

abbrev calls_of_handler : List Event
calls_of_handler =
    validate create_order
    ∷ authorize create_order
    ∷ pre_process order_handler create_order
    ∷ do_handle order_handler create_order none
    ∷ post_process order_handler create_order (object 5)
    ∷ on_success order_handler create_order (object 5)
    ∷ []

run_query-run_query_example :
    run_query shop text_of
      (with_cache (some in_memory) queries)
      create_order
      (some 3)
      (50, insert ":cqrs:order:1" (record { value = object 5; expires_at = some 70 }) [])
      calls_of_handler
    ≡ (
      ok (object 5),
      (50, insert ":cqrs:order:1" (record { value = object 5; expires_at = some 70 }) []),
      calls_of_handler ++ validate create_order ∷ authorize create_order ∷ [],
    )
unfolding handlers queries cache_key_of find_query_handler register_query_handler
    register_command_handler lookup insert get put get_entry run_query admit check validate_message
    process validate_custom authorize_with authorize_message evaluate find_handler serve
    try_cache_get in_memory run_handler handle try_cache_put
run_query-run_query_example =
    run_query-run_query shop text_of queries create_order order_handler ":cqrs:order:1" refl refl
      none (some 3) (object 5) 10 50 [] _ [] calls_of_handler calls_of_handler refl refl refl
      (omega arith) refl
