-- ===== src/Saga/Orchestrator/Tests.antt =====
-- The run of a saga of two steps, of which the second depends on the first.
use pyfly.Common.{
  ℕ, ◌<◌, arith, String, true, false, ◌≡◌, refl, none, List, [], ◌∷◌, IsDict, lookup, insert, count,
  keys, no_repeats, count-no_repeats, Option, some, sym, ap, ◌∙◌, str_eq, str_eq-cases, inl, inr,
  if◌then◌else◌,
}
use pyfly.Common.Effects.{external, ok, err, World}
use pyfly.Saga.Definitions.{StepDefinition, SagaDefinition, running, strict_sequential}
use pyfly.Saga.Topology.{compute_layers}
use pyfly.Saga.Orchestrator.{
  Run, dependencies, create, all_returned, start_attempt, record_result, complete, handle_error,
  enter, returns, reported, raises, wakes, open_layer, turn, finish, initial, Reach, begin, next,
}
use pyfly.Saga.Orchestrator.Turns.{IsComplete}
use pyfly.Saga.Orchestrator.Order.{Reach-begun, Reach-returned}
use pyfly.Saga.Compensator
use pyfly.Saga.Compensator.{SagaCompensator}
use pyfly.Saga.Compensator.Invocations.{invocations}
use pyfly.Saga.Engine.{compensation}
use pyfly.Saga.Engine.Statuses.{Pairwise, IsFree}
use pyfly.Saga.Engine.Undoing.{compensation-Pairwise}

abbrev step_of : String → List String → StepDefinition
step_of id depends_on = record {
  id = id;
  has_step_method = true;
  has_compensate_method = true;
  depends_on = depends_on;
  retry = 2;
  backoff_ms = 10;
  timeout_ms = 0;
  compensation_retry = none;
  compensation_backoff_ms = none;
}

abbrev reserve : StepDefinition
reserve = step_of "reserve" []

abbrev pay : StepDefinition
pay = step_of "pay" ("reserve" ∷ [])

abbrev two_steps : SagaDefinition
two_steps = record {
  name = "order";
  steps = ("pay", pay) ∷ ("reserve", reserve) ∷ [];
  layer_concurrency = 1;
}

two_steps-IsDict : IsDict (dependencies two_steps.steps)
unfolding dependencies keys no_repeats
two_steps-IsDict k = count-no_repeats k ("pay" ∷ "reserve" ∷ []) refl

abbrev two_layers : List (List String)
two_layers = ("reserve" ∷ []) ∷ ("pay" ∷ []) ∷ []

-- The first step is retried once; then the second has begun.
unfoldable second_begun : (r : Run ℕ) × Reach two_steps r
unfolding initial dependencies compute_layers create all_returned start_attempt record_result
    complete handle_error lookup insert
second_begun =
    let r0 : Reach two_steps (initial {V = ℕ} two_steps two_layers) = begin two_layers refl in
    let r1 = next r0 refl (open_layer _ _ refl refl) in
    let r2 = next r1 refl (turn reserve _ _ refl refl (enter refl)) in
    let r3 = next r2 refl (turn reserve _ _ refl refl (raises 1 10 (external 0))) in
    let r4 = next r3 refl (turn reserve _ _ refl refl (wakes 1 10)) in
    let r5 = next r4 refl (turn reserve _ _ refl refl (returns 2 20 7)) in
    let r6 = next r5 refl (turn reserve _ _ refl refl (reported 2 20)) in
    let r7 = next r6 refl (open_layer _ _ refl refl) in
    let r8 = next r7 refl (turn pay _ _ refl refl (enter refl)) in (_, r8)

unfoldable both_done : (r : Run ℕ) × Reach two_steps r
unfolding second_begun initial dependencies compute_layers create all_returned start_attempt
    record_result complete handle_error lookup insert
both_done =
    let r9 = next second_begun.1 refl (turn pay _ _ refl refl (returns 1 10 8)) in
    let r10 = next r9 refl (turn pay _ _ refl refl (reported 1 10)) in
    (_, next r10 refl (finish refl refl))

Reach-begun_example : IsComplete second_begun.0 "reserve"
unfolding second_begun initial dependencies compute_layers create all_returned start_attempt
    record_result complete handle_error lookup insert count
Reach-begun_example =
    Reach-begun two_steps second_begun.0 two_steps-IsDict second_begun.1 "pay" "reserve"
      ("reserve" ∷ []) running refl refl (omega arith)

Reach-returned_example :
    (both_done.0.completed_step_ids ≡ both_done.0.completed_step_ids)
    × ((k : String) → 0 < count k (keys (dependencies two_steps.steps)) → IsComplete both_done.0 k)
unfolding both_done second_begun initial dependencies compute_layers create all_returned
    start_attempt record_result complete handle_error lookup insert
Reach-returned_example =
    Reach-returned two_steps both_done.0 both_done.0.completed_step_ids two_steps-IsDict both_done.1
      refl

returned_ids : both_done.0.completed_step_ids ≡ "reserve" ∷ "pay" ∷ []
unfolding both_done second_begun initial dependencies compute_layers create all_returned
    start_attempt record_result complete handle_error lookup insert
returned_ids = refl

named : (e d : StepDefinition) → ◌≡◌ {A = Option StepDefinition} (some e) (some d) → e.id ≡ d.id
named e d same = cc

two_steps-IsFiled : (k : String) (d : StepDefinition) → lookup k two_steps.steps ≡ some d → d.id ≡ k
unfolding lookup
two_steps-IsFiled k d found = elim (str_eq-cases "pay" k) [
  | inl (same, test) ↦
      sym (
        named pay d (
          sym (
            ap (λ b. if b then some pay else (if str_eq "reserve" k then some reserve else none))
              test)
          ∙ found))
      ∙ same
  | inr (_, differ) ↦
      let rest =
        sym (
          ap (λ b. if b then some pay else (if str_eq "reserve" k then some reserve else none))
            differ)
        ∙ found in
      elim (str_eq-cases "reserve" k) [
        | inl (same, test) ↦
            sym (named reserve d (sym (ap (λ b. if b then some reserve else none) test) ∙ rest))
            ∙ same
        | inr (_, other) ↦
            let no : ◌≡◌ {A = Option StepDefinition} none (some d) =
              sym (ap (λ b. if b then some reserve else none) other) ∙ rest in
            cc
      ]
]

abbrev answering : World Compensator.Event ℕ
answering h event = ok 0

abbrev no_ports : SagaCompensator
no_ports = record { has_events_port = false; has_error_handler = false }

compensation-Pairwise_example :
    Pairwise
      (λ p k. IsFree two_steps k p)
      (invocations (
        compensation answering no_ports strict_sequential two_steps two_layers both_done.0.ctx
          (err (external 1))))
compensation-Pairwise_example =
    compensation-Pairwise answering no_ports two_steps two_steps-IsDict two_steps-IsFiled
      both_done.0 two_layers (external 1) both_done.1
