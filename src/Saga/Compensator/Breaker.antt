-- ===== src/Saga/Compensator/Breaker.antt =====
-- The circuit breaker policy.
use pyfly.Common.{ℕ, Bool, true, false, ◌≡◌, List, [], ◌∷◌, ◌++◌, ◌⊎◌}
use pyfly.Common.Effects.{Result, ok, is_ok, World}
use pyfly.Saga.Definitions.{StepDefinition}
use pyfly.Saga.Compensator.{Event, SagaCompensator, invoke_one}
use pyfly.Saga.Compensator.Invocations.{invocations, ids_of}
use pyfly.Saga.Compensator.Rows.{EndsInThree, NeverThreeBefore, fails}

module _ {V : Type 0} (world : World Event V) (c : SagaCompensator) where
  -- The compensations of some steps, one after another: which of them succeed, and what they leave
  -- behind. A compensation fails if it raises, or the port that is told of its success.
  unfoldable pub outcomes : List StepDefinition → List Event → List Bool × List Event
  outcomes [] h = ([], h)
  outcomes (sd ∷ sds) h =
      let (r, h') = invoke_one world c true false sd h in
      let (rest, end) = outcomes sds h' in (is_ok r ∷ rest, end)

  -- A run that compensates the first steps of `sds`, after `failures` failures in a row, and never
  -- raises. It leaves some out only after three failures in a row, and it ends with the first three.
  pub record BreakerRun (failures : ℕ) (sds : List StepDefinition) (before : List Event)
      (run : Result (Unit {0}) × List Event) : Type 0 where
    pub made : List StepDefinition
    pub skipped : List StepDefinition
    pub split : sds ≡ made ++ skipped
    pub ran : run.1 ≡ (outcomes made before).1
    pub order : invocations run.1 ≡ invocations before ++ ids_of made
    pub never_raises : run.0 ≡ ok tt
    pub opened : (skipped ≡ []) ⊎ EndsInThree (fails failures (outcomes made before).0)
    pub never_late : NeverThreeBefore (fails failures (outcomes made before).0)
