-- ===== src/Cqrs/Messages.antt =====
-- cqrs/types.py: messages, handlers, and the calls that the buses make of code outside of the framework. A command and a query are both a
-- `Message`, with what the buses ask of it; a handler is what the registry and the buses read off it.
use pyfly.Common.{ℕ, String, Bool, Option, some, List}
use pyfly.Common.Effects.{Exception}
use pyfly.Cqrs.ValidationResult.{ValidationResult}
use pyfly.Cqrs.AuthorizationResult.{AuthorizationResult}

-- What is returned to the buses, whose code tests of which type it is.
pub data Value : Type 0 where
  nothing : Value
  validation : ValidationResult → Value
  authorization : AuthorizationResult → Value
  exception : Exception → Value
  object : ℕ → Value

-- `structural` is what pydantic says of the message, `domain_events` its attribute of that name.
pub record Message : Type 0 where
  pub message_type : String
  pub correlation_id : Option String
  pub structural : ValidationResult
  pub has_validate : Bool
  pub has_authorize : Bool
  pub has_authorize_with_context : Bool
  pub cacheable : Bool
  pub cache_key : Option String
  pub domain_events : List ℕ

abbrev pub set_correlation_id : String → Message → Message
set_correlation_id cid message = record message { correlation_id = some cid }

pub record Handler : Type 0 where
  pub id : ℕ
  -- the command or query type, none where it cannot be resolved
  pub handled_type : Option String
  pub supports_caching : Bool
  pub cache_ttl_seconds : Option ℕ

-- The calls, in their order; a context is its number.
pub data Event : Type 0 where
  correlated : (correlation_id : String) → Event
  validate authorize : Message → Event
  authorize_with_context : Message → ℕ → Event
  pre_process : Handler → Message → Event
  do_handle : Handler → Message → Option ℕ → Event
  post_process on_success : Handler → Message → Value → Event
  on_error map_error : Handler → Message → Exception → Event
  publish : ℕ → Event
