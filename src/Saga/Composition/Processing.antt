-- ===== src/Saga/Composition/Processing.antt =====
-- transactional/saga/composition/compositor.py: what the results of one layer lead to.
use pyfly.Common.{
  String, true, false, none, some, List, [], ◌∷◌, ◌++◌, ◌≡◌, refl, sym, ap, ◌∙◌, ◌⊎◌, inl, inr, All,
  append_assoc, append-nil, subst,
}
use pyfly.Common.Effects.{Exception, runtime_error, Result, ok, err}
use pyfly.Saga.Composition.{SagaResult, CompositionContext, complete, fail, process}

abbrev pub names_of : List (String × Result SagaResult) → List String
names_of [] = []
names_of ((name, r) ∷ results) = name ∷ names_of results

-- The saga was executed and reports a success.
abbrev pub Succeeded : Result SagaResult → Type 0
Succeeded (err exc) = ⊥
Succeeded (ok result) = result.success ≡ true

abbrev pub AllSucceeded : List (String × Result SagaResult) → Type 0
AllSucceeded = All (λ (name, r). Succeeded r)

-- The execution of the saga `name` raised, and nothing is listed as completed for it; or it reports a
-- failure, and is listed.
abbrev pub Failed : String → Result SagaResult → (listed : List String) → Type 0
Failed name (err exc) listed = listed ≡ []
Failed name (ok result) listed = (result.success ≡ false) × (listed ≡ name ∷ [])

-- The results of a layer, of which the first that is not a success is the one of `name`.
pub record Stopped (results : List (String × Result SagaResult))
    (completed completed' : List String) : Type 0 where
  pub before : List (String × Result SagaResult)
  pub name : String
  pub result : Result SagaResult
  pub after : List (String × Result SagaResult)
  pub last : List String
  pub split : results ≡ before ++ (name, result) ∷ after
  pub good : AllSucceeded before
  pub failed : Failed name result last
  pub listed : completed' ≡ completed ++ (names_of before ++ last)

-- What the processing of results leads to.
abbrev pub Processed :
    List (String × Result SagaResult) → CompositionContext → CompositionContext → Type 0
Processed results ctx ctx' =
    ((ctx'.error ≡ none)
      × AllSucceeded results
      × (ctx'.completed_sagas ≡ ctx.completed_sagas ++ names_of results))
    ⊎ (((exc : Exception) × (ctx'.error ≡ some exc))
        × Stopped results ctx.completed_sagas ctx'.completed_sagas)

one_more :
    (name : String) (r : Result SagaResult) (results : List (String × Result SagaResult))
    (completed completed' : List String)
    → Succeeded r
    → Stopped results (completed ++ name ∷ []) completed'
    → Stopped ((name, r) ∷ results) completed completed'
one_more name r results completed completed' success s = record {
  before = (name, r) ∷ s.before;
  name = s.name;
  result = s.result;
  after = s.after;
  last = s.last;
  split = ap (λ l. (name, r) ∷ l) s.split;
  good = (success, s.good);
  failed = s.failed;
  listed = s.listed ∙ append_assoc completed (name ∷ []) (names_of s.before ++ s.last);
}

-- The first result of a layer is not a success.
Stopped-at_once :
    (name : String) (r : Result SagaResult) (results : List (String × Result SagaResult))
    (completed last : List String)
    → Failed name r last
    → Stopped ((name, r) ∷ results) completed (completed ++ last)
Stopped-at_once name r results completed last failed = record {
  before = [];
  name = name;
  result = r;
  after = results;
  last = last;
  split = refl;
  good = tt;
  failed = failed;
  listed = refl;
}

pub process-Processed :
    (results : List (String × Result SagaResult)) (ctx : CompositionContext)
    → ctx.error ≡ none
    → Processed results ctx (process results ctx)
unfolding process complete
process-Processed [] ctx fine = inl (fine, tt, sym (append-nil ctx.completed_sagas))
process-Processed ((name, err exc) ∷ results) ctx fine = inr (
  (exc, refl),
  subst (Stopped ((name, err exc) ∷ results) ctx.completed_sagas) (append-nil ctx.completed_sagas)
      (Stopped-at_once name (err exc) results ctx.completed_sagas [] refl),
)
process-Processed ((name, ok result) ∷ results) ctx fine =
    (elim result.success
        as (λ b.
          result.success ≡ b
          → Processed ((name, ok result) ∷ results) ctx (elim b [
            | true ↦ process results (complete name result ctx)
            | false ↦ fail runtime_error (complete name result ctx)
          ])) [
            | true ↦ λ success. elim (process-Processed results (complete name result ctx) fine) [
              | inl (still, good, listed) ↦ inl (
                still,
                (success, good),
                listed ∙ append_assoc ctx.completed_sagas (name ∷ []) (names_of results),
              )
              | inr (raised, stopped) ↦
                  inr (
                    raised,
                    one_more name (ok result) results ctx.completed_sagas _ success stopped,
                  )
            ]
            | false ↦ λ failure. inr (
              (runtime_error, refl),
              Stopped-at_once name (ok result) results ctx.completed_sagas (name ∷ [])
                  (failure, refl),
            )
          ])
      refl
