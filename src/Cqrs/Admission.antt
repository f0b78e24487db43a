-- ===== src/Cqrs/Admission.antt =====
-- What a message passes before it is handled: the correlation of cqrs/command/bus.py and cqrs/query/bus.py,
-- cqrs/validation/processor.py, cqrs/command/validation.py and cqrs/authorization/service.py.
use pyfly.Common.{ℕ, String, Bool, true, false, Option, none, some, if◌then◌else◌}
use pyfly.Common.Effects.{
  Exception, invalid, unauthorized, World, Act, pure, raise, perform, ◌>>=◌, ◌>>◌, try_except, when,
}
use pyfly.Cqrs.ValidationResult
use pyfly.Cqrs.ValidationResult.{ValidationResult}
use pyfly.Cqrs.AuthorizationResult
use pyfly.Cqrs.AuthorizationResult.{AuthorizationResult}
use pyfly.Cqrs.Messages.{
  Value, validation, authorization, Message, Event, validate, authorize, authorize_with_context,
}
use pyfly.Cqrs.Correlation.{Context, truthy, get_or_create_correlation_id}

-- The services a bus is given: the validation, and the authorization with its `enabled`.
pub record Services : Type 0 where
  pub validates : Bool
  pub authorizes : Option Bool

abbrev pub or_create : Option String → String → Context → String × Context
or_create none drawn c = get_or_create_correlation_id drawn c
or_create (some cid) drawn c = (cid, c)

-- The identifier of the message, of the context, or the one drawn; the context takes it over.
unfoldable pub correlate : Message → String → Context → String × Context
correlate message drawn c =
    let (cid, c') = or_create (truthy message.correlation_id) drawn c in
    (cid, record c' { correlation_id = some cid })

-- isinstance(result, ValidationResult)
abbrev pub as_validation : Value → ValidationResult
as_validation (validation result) = result
as_validation _ = ValidationResult.success

module _ (world : World Event Value) (str_of : Exception → String) where
  unfoldable pub validate_custom : Message → Act Event ValidationResult
  validate_custom message =
      if message.has_validate
      then try_except (do result ← perform world (validate message); pure (as_validation result))
          (λ exc. pure (ValidationResult.failure "_custom" (str_of exc)))
      else pure ValidationResult.success

  -- AutoValidationProcessor.validate
  unfoldable pub process : Message → Act Event ValidationResult
  unfolding validate_custom
  process message = do
    custom ← validate_custom message
    pure (ValidationResult.combine message.structural custom)

  unfoldable pub validate_message : Message → Act Event (Unit {0})
  unfolding process
  validate_message message = do
    result ← process message
    if result.valid then pure tt else raise invalid

  abbrev pub evaluate_plain : Message → Act Event AuthorizationResult
  evaluate_plain message =
      if message.has_authorize
      then (do
        result ← perform world (authorize message)
        pure (elim result [ authorization decision ↦ decision | _ ↦ AuthorizationResult.success ]))
      else pure AuthorizationResult.success

  abbrev pub evaluate_result : Message → Value → Act Event AuthorizationResult
  evaluate_result message (authorization decision) = pure decision
  evaluate_result message _ = evaluate_plain message

  unfoldable pub evaluate : Message → Option ℕ → Act Event AuthorizationResult
  evaluate message none = evaluate_plain message
  evaluate message (some context) =
      if message.has_authorize_with_context
      then (do
        result ← perform world (authorize_with_context message context)
        evaluate_result message result)
      else evaluate_plain message

  unfoldable pub authorize_message : Bool → Message → Option ℕ → Act Event (Unit {0})
  unfolding evaluate
  authorize_message false message context = pure tt
  authorize_message true message context = do
    result ← evaluate message context
    if result.authorized then pure tt else raise unauthorized

  unfoldable pub authorize_with : Option Bool → Message → Option ℕ → Act Event (Unit {0})
  unfolding authorize_message
  authorize_with none message context = pure tt
  authorize_with (some enabled) message context = authorize_message enabled message context

  -- Steps 2 and 3 of the pipelines.
  unfoldable pub check : Services → Message → Option ℕ → Act Event (Unit {0})
  unfolding validate_message authorize_with
  check services message context = do
    when services.validates (validate_message message)
    authorize_with services.authorizes message context
