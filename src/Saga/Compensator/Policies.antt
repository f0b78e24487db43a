-- ===== src/Saga/Compensator/Policies.antt =====
-- What each policy invokes, and when it raises.
use pyfly.Common.{
  String, Bool, true, false, ◌≡◌, refl, sym, ◌∙◌, ap, List, [], ◌∷◌, ◌++◌, append_assoc, append-nil,
  reverse, inl, inr, Option-cases,
}
use pyfly.Common.Effects.{Result, ok, err, is_ok, World, Act, continue}
use pyfly.Saga.Definitions.{SagaDefinition, strict_sequential}
use pyfly.Saga.Compensator.{
  Event, SagaCompensator, compensable, compensables, invoke_one, one_by_one, compensate,
}
use pyfly.Saga.Compensator.Invocations.{
  invocations, ids_of, compensable-has_method, invoke_one-Invokes,
}

-- The first compensations of `ids` were invoked after `h`, and all of them if nothing was raised.
pub record InvokesPrefix (ids : List String) (before : List Event) (r : Bool) (after : List Event)
    : Type 0 where
  pub made : List String
  pub skipped : List String
  pub split : ids ≡ made ++ skipped
  pub order : invocations after ≡ invocations before ++ made
  pub complete : r ≡ true → skipped ≡ []

-- One more invocation before a loop that invokes a prefix.
prefix-cons :
    (id : String) (ids : List String) (h : List Event) (r : Result (Unit {0})) (h' : List Event)
    (loop : Act Event (Unit {0}))
    → invocations h' ≡ invocations h ++ id ∷ []
    → InvokesPrefix ids h' (is_ok (loop h').0) (loop h').1
    → InvokesPrefix (id ∷ ids) h (is_ok (continue r (λ _. loop) h').0) (continue r (λ _. loop) h').1
prefix-cons id ids h (ok _) h' loop one rest = record {
  made = id ∷ rest.made;
  skipped = rest.skipped;
  split = ap (λ l. id ∷ l) rest.split;
  order = rest.order ∙ ap (λ l. l ++ rest.made) one ∙ append_assoc _ (id ∷ []) rest.made;
  complete = rest.complete;
}
prefix-cons id ids h (err e) h' loop one rest = record {
  made = id ∷ [];
  skipped = ids;
  split = refl;
  order = one;
  complete = λ e. cc;
}

module _ {V : Type 0} (world : World Event V) (c : SagaCompensator)
    (saga_def : SagaDefinition) where
  one_by_one-prefix :
      (ids : List String) (h : List Event)
      → InvokesPrefix
          (ids_of (compensables saga_def ids))
          h
          (is_ok (one_by_one world c saga_def ids h).0)
          (one_by_one world c saga_def ids h).1
  unfolding one_by_one compensables ids_of
  one_by_one-prefix [] h = record {
    made = [];
    skipped = [];
    split = refl;
    order = sym (append-nil _);
    complete = λ _. refl;
  }
  one_by_one-prefix (id ∷ ids) h = elim (Option-cases (compensable saga_def id)) [
    | inl absent ↦ rw (absent, one_by_one, compensables) (one_by_one-prefix ids h)
    | inr (sd, found) ↦
        let (r, h') = invoke_one world c true false sd h in
        rw (found, one_by_one, compensables)
          (prefix-cons sd.id (ids_of (compensables saga_def ids)) h r h'
            (one_by_one world c saga_def ids)
            ((invoke_one-Invokes world c true false sd
                (compensable-has_method saga_def id found)).at
              h)
            (one_by_one-prefix ids h'))
  ]

  -- Sequential compensation runs the compensations of the completed steps in reverse order of the
  -- given list: a first part of them, and all of them if it does not raise.
  pub strict_sequential-prefix :
      (completed : List String) (layers : List (List String))
      → InvokesPrefix
          (ids_of (compensables saga_def (reverse completed)))
          []
          (is_ok (compensate world c strict_sequential completed saga_def layers []).0)
          (compensate world c strict_sequential completed saga_def layers []).1
  unfolding compensate
  strict_sequential-prefix [] layers = one_by_one-prefix [] []
  strict_sequential-prefix (id ∷ ids) layers = one_by_one-prefix (reverse (id ∷ ids)) []
