-- ===== src/Saga/Compensator/Invocations.antt =====
-- Which compensation methods are invoked, whatever they, the events port and the error handler
-- answer.
use pyfly.Common.{
  ℕ, String, Bool, true, false, ◌≡◌, refl, sym, ◌∙◌, ap, Option, some, List, [], ◌∷◌, ◌++◌,
  append-nil, if◌then◌else◌, arith,
}
use pyfly.Common.Effects.{
  Exception, Result, ok, err, World, Act, pure, raise, continue, ◌>>=◌, on_error, try_except, when,
}
use pyfly.Saga.Definitions.{StepDefinition, SagaDefinition}
use pyfly.Saga.Compensator.{
  Event, invoked, compensated, handled, slept, SagaCompensator, compensable, invoke_compensation,
  emit_compensated, handle_error, sleep, invoke_one, compensate_one,
}

-- The ids of the invoked compensation methods, in order.
unfoldable pub invocations : List Event → List String
invocations [] = []
invocations (invoked step_id ∷ h) = step_id ∷ invocations h
invocations (compensated _ _ ∷ h) = invocations h
invocations (handled _ _ ∷ h) = invocations h
invocations (slept _ ∷ h) = invocations h

unfoldable pub ids_of : List StepDefinition → List String
ids_of [] = []
ids_of (step_def ∷ rest) = step_def.id ∷ ids_of rest

invocations-append : (h k : List Event) → invocations (h ++ k) ≡ invocations h ++ invocations k
unfolding invocations
invocations-append [] k = refl
invocations-append (invoked step_id ∷ h) k = ap (λ l. step_id ∷ l) (invocations-append h k)
invocations-append (compensated _ _ ∷ h) k = invocations-append h k
invocations-append (handled _ _ ∷ h) k = invocations-append h k
invocations-append (slept _ ∷ h) k = invocations-append h k

pub invocations-invoked :
    (h : List Event) (id : String) → invocations (h ++ invoked id ∷ []) ≡ invocations h ++ id ∷ []
unfolding invocations
invocations-invoked h id = invocations-append h (invoked id ∷ [])

pub invocations-compensated :
    (h : List Event) (id : String) (e : Option Exception)
    → invocations (h ++ compensated id e ∷ []) ≡ invocations h
unfolding invocations
invocations-compensated h id e = invocations-append h (compensated id e ∷ []) ∙ append-nil _

pub invocations-handled :
    (h : List Event) (id : String) (e : Exception)
    → invocations (h ++ handled id e ∷ []) ≡ invocations h
unfolding invocations
invocations-handled h id e = invocations-append h (handled id e ∷ []) ∙ append-nil _

pub invocations-slept : (h : List Event) (ms : ℕ) → invocations (h ++ slept ms ∷ []) ≡ invocations h
unfolding invocations
invocations-slept h ms = invocations-append h (slept ms ∷ []) ∙ append-nil _

pub compensable-has_method :
    (saga_def : SagaDefinition) (id : String) {step_def : StepDefinition}
    → compensable saga_def id ≡ some step_def
    → step_def.has_compensate_method ≡ true
unfolding compensable
compensable-has_method saga_def id h = ground arith

-- `m` invokes the compensations `ids` in this order, whether it returns or raises.
pub record Invokes {A : Type 0} (ids : List String) (m : Act Event A) : Type 0 where
  pub at : (h : List Event) → invocations (m h).1 ≡ invocations h ++ ids

module _ {A : Type 0} where
  pub Invokes-pure : (a : A) → Invokes [] (pure {A = A} a)
  Invokes-pure a = record { at = λ h. sym (append-nil _) }

  pub Invokes-raise : (e : Exception) → Invokes [] (raise {A = A} e)
  Invokes-raise e = record { at = λ h. sym (append-nil _) }

  pub Invokes-if :
      (b : Bool) (m n : Act Event A) → Invokes [] m → Invokes [] n → Invokes [] (if b then m else n)
  Invokes-if true m n km kn = km
  Invokes-if false m n km kn = kn

pub Invokes-when : (b : Bool) (m : Act Event (Unit {0})) → Invokes [] m → Invokes [] (when b m)
Invokes-when true m km = km
Invokes-when false m km = Invokes-pure tt

module _ {A B : Type 0} where
  continue-silent :
      (r : Result A) (f : A → Act Event B) (h : List Event)
      → ((a : A) → Invokes [] (f a))
      → invocations (continue r f h).1 ≡ invocations h
  continue-silent (ok a) f h kf = (kf a).at h ∙ append-nil _
  continue-silent (err e) f h kf = refl

module _ {A B : Type 0} {ids : List String} where
  -- What follows invokes nothing more.
  pub Invokes-bind :
      (m : Act Event A) (f : A → Act Event B)
      → Invokes ids m
      → ((a : A) → Invokes [] (f a))
      → Invokes ids (m >>= f)
  Invokes-bind m f km kf = record { at = λ h. continue-silent (m h).0 f (m h).1 kf ∙ km.at h }

module _ {A : Type 0} where
  on_error-silent :
      (r : Result A) (handler : Exception → Act Event A) (h : List Event)
      → ((e : Exception) → Invokes [] (handler e))
      → invocations (on_error r handler h).1 ≡ invocations h
  on_error-silent (ok a) handler h kh = refl
  on_error-silent (err e) handler h kh = (kh e).at h ∙ append-nil _

module _ {A : Type 0} {ids : List String} where
  pub Invokes-try_except :
      (body : Act Event A) (handler : Exception → Act Event A)
      → Invokes ids body
      → ((e : Exception) → Invokes [] (handler e))
      → Invokes ids (try_except body handler)
  Invokes-try_except body handler kb kh = record {
    at = λ h. on_error-silent (body h).0 handler (body h).1 kh ∙ kb.at h;
  }

pub ruleset invokes_rules =
    (Invokes-pure, Invokes-raise, Invokes-if, Invokes-when, Invokes-bind, Invokes-try_except)

module _ {V : Type 0} (world : World Event V) (c : SagaCompensator) where
  pub emit_compensated-silent :
      (id : String) (e : Option Exception) → Invokes [] (emit_compensated world c id e)
  unfolding emit_compensated
  emit_compensated-silent id e = record {
    at = λ h. ground (arith, invocations-compensated h id e, append-nil (invocations h));
  }

  pub handle_error-silent : (id : String) (e : Exception) → Invokes [] (handle_error world c id e)
  unfolding handle_error
  handle_error-silent id e = record {
    at = λ h. ground (arith, invocations-handled h id e, append-nil (invocations h));
  }

  pub sleep-silent : (ms : ℕ) → Invokes [] (sleep world c ms)
  unfolding sleep
  sleep-silent ms = record {
    at = λ h. ground (arith, invocations-slept h ms, append-nil (invocations h));
  }

  invoke-Invokes :
      (step_def : StepDefinition)
      → step_def.has_compensate_method ≡ true
      → Invokes (step_def.id ∷ []) (invoke_compensation world c step_def)
  unfolding invoke_compensation
  invoke-Invokes step_def has = record {
    at = λ h. ground (arith, invocations-invoked h step_def.id);
  }

  -- One call of `_invoke_one` invokes its method once, whatever raises.
  pub invoke_one-Invokes :
      (r s : Bool) (step_def : StepDefinition)
      → step_def.has_compensate_method ≡ true
      → Invokes (step_def.id ∷ []) (invoke_one world c r s step_def)
  unfolding invoke_one
  invoke_one-Invokes r s step_def has =
      search (invokes_rules, invoke-Invokes, emit_compensated-silent, handle_error-silent) depth 9

  pub compensate_one-Invokes :
      (step_def : StepDefinition)
      → step_def.has_compensate_method ≡ true
      → Invokes (step_def.id ∷ []) (compensate_one world c step_def)
  unfolding compensate_one
  compensate_one-Invokes step_def has =
      search (invokes_rules, invoke-Invokes, emit_compensated-silent, handle_error-silent) depth 9
