-- ===== src/Cqrs/Guards.antt =====
-- cqrs/: the calls of a handler's hooks among the calls that a bus makes, and what the checks leave.
use pyfly.Common.{
  ℕ, ◌+◌, String, Bool, true, false, Option, none, some, List, [], ◌∷◌, ◌++◌, ◌≡◌, refl, inl, inr,
  ap, sym, ◌∙◌, if◌then◌else◌, arith, Bool-cases,
}
use pyfly.Common.Effects.{
  Exception, invalid, unauthorized, ok, World, Act, pure, raise, perform, ◌>>=◌, when, Result-cases,
}
use pyfly.Cqrs.ValidationResult.{ValidationResult}
use pyfly.Cqrs.AuthorizationResult.{AuthorizationResult}
use pyfly.Cqrs.Messages.{
  Value, validation, authorization, nothing, exception, object, Message, Event, validate, authorize,
  authorize_with_context, pre_process, do_handle, post_process, on_success, on_error, map_error,
}
use pyfly.Cqrs.Admission.{
  Services, validate_custom, process, validate_message, evaluate_plain, evaluate_result, evaluate,
  authorize_message, authorize_with, check,
}

abbrev is_of_handler : Event → Bool
is_of_handler (pre_process handler message) = true
is_of_handler (do_handle handler message context) = true
is_of_handler (post_process handler message result) = true
is_of_handler (on_success handler message result) = true
is_of_handler (on_error handler message exc) = true
is_of_handler (map_error handler message exc) = true
is_of_handler _ = false

-- How many calls of a handler's hooks there are.
unfoldable pub handled : List Event → ℕ
handled [] = 0
handled (event ∷ h) = (if is_of_handler event then 1 else 0) + handled h

pub handled-append : (h k : List Event) → handled (h ++ k) ≡ handled h + handled k
unfolding handled
handled-append [] k = omega arith
handled-append (event ∷ h) k = ground (arith, handled-append h k)

-- An action that calls no hook of a handler.
abbrev pub IsQuiet : {A : Type 0} → Act Event A → Type 0
IsQuiet m = (h : List Event) → handled (m h).1 ≡ handled h

module _ (world : World Event Value) where
  perform-IsQuiet : (event : Event) → is_of_handler event ≡ false → IsQuiet (perform world event)
  unfolding handled
  perform-IsQuiet event other h = ground (arith, handled-append h (event ∷ []), other)

bind-IsQuiet :
    {A B : Type 0} (m : Act Event A) (f : A → Act Event B)
    → IsQuiet m
    → ((a : A) → IsQuiet (f a))
    → IsQuiet (m >>= f)
bind-IsQuiet m f quiet quiets h = elim (Result-cases (m h).0) [
  | inl (a, returned) ↦ ground (arith, quiet h, quiets a (m h).1)
  | inr (e, threw) ↦ ground (arith, quiet h)
]

check_valid :
    (result : ValidationResult) → IsQuiet (if result.valid then pure tt else raise invalid)
check_valid result h = ground arith

check_authorized :
    (result : AuthorizationResult)
    → IsQuiet (if result.authorized then pure tt else raise unauthorized)
check_authorized result h = ground arith

module _ (world : World Event Value) (str_of : Exception → String) (message : Message) where
  validate_custom-IsQuiet : IsQuiet (validate_custom world str_of message)
  unfolding validate_custom
  validate_custom-IsQuiet h = ground (arith, perform-IsQuiet world (validate message) refl h)

  process-IsQuiet : IsQuiet (process world str_of message)
  unfolding process
  process-IsQuiet = bind-IsQuiet _ _ validate_custom-IsQuiet (λ custom h. refl)

  validate_message-IsQuiet : IsQuiet (validate_message world str_of message)
  unfolding validate_message
  validate_message-IsQuiet = bind-IsQuiet _ _ process-IsQuiet check_valid

  evaluate_plain-IsQuiet : IsQuiet (evaluate_plain world str_of message)
  evaluate_plain-IsQuiet h = ground (arith, perform-IsQuiet world (authorize message) refl h)

  evaluate_result-IsQuiet : (result : Value) → IsQuiet (evaluate_result world str_of message result)
  evaluate_result-IsQuiet (authorization decision) h = refl
  evaluate_result-IsQuiet nothing h = evaluate_plain-IsQuiet h
  evaluate_result-IsQuiet (validation result) h = evaluate_plain-IsQuiet h
  evaluate_result-IsQuiet (exception exc) h = evaluate_plain-IsQuiet h
  evaluate_result-IsQuiet (object o) h = evaluate_plain-IsQuiet h

  evaluate-IsQuiet : (context : Option ℕ) → IsQuiet (evaluate world str_of message context)
  unfolding evaluate
  evaluate-IsQuiet none h = evaluate_plain-IsQuiet h
  evaluate-IsQuiet (some context) h = elim (Bool-cases message.has_authorize_with_context) [
    | inl hook ↦ ground (
      arith,
      bind-IsQuiet (perform world (authorize_with_context message context))
          (evaluate_result world str_of message)
          (perform-IsQuiet world (authorize_with_context message context) refl)
          evaluate_result-IsQuiet h,
    )
    | inr no_hook ↦ ground (arith, evaluate_plain-IsQuiet h)
  ]

  authorize_with-IsQuiet :
      (o : Option Bool) (context : Option ℕ)
      → IsQuiet (authorize_with world str_of o message context)
  unfolding authorize_with authorize_message
  authorize_with-IsQuiet none context h = refl
  authorize_with-IsQuiet (some false) context h = refl
  authorize_with-IsQuiet (some true) context h =
      bind-IsQuiet (evaluate world str_of message context)
        (λ result. if result.authorized then pure tt else raise unauthorized)
        (evaluate-IsQuiet context) check_authorized h

  when-IsQuiet : (b : Bool) (m : Act Event (Unit {0})) → IsQuiet m → IsQuiet (when b m)
  when-IsQuiet true m quiet h = quiet h
  when-IsQuiet false m quiet h = refl

  module _ (services : Services) (context : Option ℕ) where
    -- The checks call no hook of a handler.
    pub check-IsQuiet : IsQuiet (check world str_of services message context)
    unfolding check
    check-IsQuiet =
        bind-IsQuiet _ _ (when-IsQuiet services.validates _ validate_message-IsQuiet)
          (λ _. authorize_with-IsQuiet services.authorizes context)

    -- The services there are have found the message valid and authorized it.
    pub record HasPassed (h : List Event) : Type 0 where
      pub valid :
          services.validates ≡ true
          → (result : ValidationResult) × ((process world str_of message h).0 ≡ ok result)
            × (result.valid ≡ true)
      pub authorized :
          services.authorizes ≡ some true
          → (result : AuthorizationResult) × ((evaluate world str_of message context
                (when services.validates (validate_message world str_of message) h).1).0
              ≡ ok result)
            × (result.authorized ≡ true)

    valid_of :
        (h : List Event)
        → (validate_message world str_of message h).0 ≡ ok tt
        → (result : ValidationResult) × ((process world str_of message h).0 ≡ ok result)
          × (result.valid ≡ true)
    unfolding validate_message
    valid_of h passed = elim (Result-cases (process world str_of message h).0) [
      | inl (result, found) ↦ (result, found, ground arith)
      | inr (e, threw) ↦ ground arith
    ]

    authorized_of :
        (h : List Event)
        → (authorize_with world str_of (some true) message context h).0 ≡ ok tt
        → (result : AuthorizationResult) × ((evaluate world str_of message context h).0 ≡ ok result)
          × (result.authorized ≡ true)
    unfolding authorize_with authorize_message
    authorized_of h passed = elim (Result-cases (evaluate world str_of message context h).0) [
      | inl (result, found) ↦ (result, found, ground arith)
      | inr (e, threw) ↦ ground arith
    ]

    pub check-HasPassed :
        (h : List Event) → (check world str_of services message context h).0 ≡ ok tt → HasPassed h
    unfolding check
    check-HasPassed h passed =
        let validating = when services.validates (validate_message world str_of message) in
        elim (Result-cases (validating h).0) [
          | inl (_, was_valid) ↦ record {
            valid = λ yes. valid_of h (
                sym (ap (λ b. (when b (validate_message world str_of message) h).0) yes)
                ∙ was_valid);
            authorized = λ yes. authorized_of (validating h).1 (
                sym
                  (ap (λ o. (authorize_with world str_of o message context (validating h).1).0) yes)
                ∙ ground arith);
          }
          | inr (e, threw) ↦ ground arith
        ]
