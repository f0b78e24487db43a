-- ===== src/Saga/Engine/Statuses.antt =====
-- transactional/saga/engine: the dict of the steps' statuses is in an order in which no step stands before
-- one of its dependencies.
use pyfly.Common.{
  ℕ, ◌<◌, String, ◌≡◌, refl, sym, ap, ◌∙◌, subst, ◌⊎◌, inl, inr, none, some, List, [], ◌∷◌, ◌++◌,
  Dict, IsDict, lookup, insert, keys, count, All, All-append, lookup-none, eq_iff, Option-cases,
  zero-cases, arith, ltb, Bool-cases,
}
use pyfly.Common.Effects.{Exception}
use pyfly.Saga.Definitions.{StepStatus, running, done, failed, StepDefinition, SagaDefinition}
use pyfly.Saga.Orchestrator.{
  Task, Run, Reach, Step, Turn, dependencies, start_attempt, record_result, complete, handle_error,
  reraise, initial, max_retries,
}
use pyfly.Saga.Orchestrator.Order.{Reach-begun}

-- Each element stands in the relation to all later ones.
unfoldable pub Pairwise : (String → String → Type 0) → List String → Type 0
Pairwise R [] = Unit
Pairwise R (x ∷ xs) = All (R x) xs × Pairwise R xs

-- The first step does not depend on the second.
abbrev pub IsFree : SagaDefinition → String → String → Type 0
IsFree saga_def k p =
    (preds : List String) → lookup k (dependencies saga_def.steps) ≡ some preds → count p preds ≡ 0

keys-insert_known :
    {A : Type 0} (k : String) (v w : A) (d : Dict A)
    → lookup k d ≡ some w
    → keys (insert k v d) ≡ keys d
unfolding lookup insert keys
keys-insert_known k v w [] found = cc
keys-insert_known k v w ((j, u) ∷ d) found = ground (arith, keys-insert_known k v w d)

keys-insert_new :
    {A : Type 0} (k : String) (v : A) (d : Dict A)
    → lookup k d ≡ none
    → keys (insert k v d) ≡ keys d ++ k ∷ []
unfolding lookup insert keys
keys-insert_new k v [] missing = refl
keys-insert_new k v ((j, u) ∷ d) missing = ground (arith, keys-insert_new k v d)

Pairwise-snoc :
    (R : String → String → Type 0) (xs : List String) (y : String)
    → Pairwise R xs
    → All (λ x. R x y) xs
    → Pairwise R (xs ++ y ∷ [])
unfolding Pairwise
Pairwise-snoc R [] y pairs ends = (tt, tt)
Pairwise-snoc R (x ∷ xs) y (first, pairs) (free, ends) =
    (All-append (R x) xs (y ∷ []) first (free, tt), Pairwise-snoc R xs y pairs ends)

listed-All :
    (P : String → Type 0) (xs : List String) → ((x : String) → 0 < count x xs → P x) → All P xs
unfolding count
listed-All P [] each = tt
listed-All P (x ∷ xs) each =
    (each x (ground (arith, eq_iff x x)), listed-All P xs (λ y listed. each y (ground arith)))

-- A step's turn writes one status or none.
module _ {V : Type 0} (saga_def : SagaDefinition) where
  abbrev IsWritten : Run V → Run V → Type 0
  IsWritten r r' =
      (r'.ctx.step_statuses ≡ r.ctx.step_statuses)
      ⊎ ((k : String) × (s : StepStatus) × (r'.ctx.step_statuses ≡ insert k s r.ctx.step_statuses))

  handle_error-IsWritten :
      (d : StepDefinition) (a b : ℕ) (e : Exception) (r : Run V)
      → IsWritten r (handle_error d a b e r)
  unfolding handle_error
  handle_error-IsWritten d a b e r = elim (Bool-cases (ltb a (max_retries d))) [
    | inl again ↦ inl (ground arith)
    | inr over ↦ inr (d.id, failed, ground arith)
  ]

  Turn-IsWritten : (d : StepDefinition) (r r' : Run V) (t : Task) → Turn d r t r' → IsWritten r r'
  unfolding start_attempt record_result complete reraise
  Turn-IsWritten d r r' t (Turn.enter free) = inr (d.id, running, refl)
  Turn-IsWritten d r r' t (Turn.returns a b v) = inr (d.id, done, refl)
  Turn-IsWritten d r r' t (Turn.raises a b e) = handle_error-IsWritten d a b e r
  Turn-IsWritten d r r' t (Turn.reported a b) = inl refl
  Turn-IsWritten d r r' t (Turn.report_raises a b e) = handle_error-IsWritten d a b e r
  Turn-IsWritten d r r' t (Turn.wakes a b) = inr (d.id, running, refl)
  Turn-IsWritten d r r' t (Turn.reraises e e') = inl refl

  Step-IsWritten : (r r' : Run V) → Step saga_def r r' → IsWritten r r'
  Step-IsWritten r r' (Step.open_layer l ls all rest) = inl refl
  Step-IsWritten r r' (Step.turn d t r'' registered found taken) = Turn-IsWritten d r r' t taken
  Step-IsWritten r r' (Step.raise_first id e found) = inl refl
  Step-IsWritten r r' (Step.finish all rest) = inl refl

  -- The steps whose status is known, in the order in which they were started.
  abbrev started : Run V → List String
  started r = keys r.ctx.step_statuses

  module _ (once : IsDict (dependencies saga_def.steps)) where
    -- A step that has no status yet is no dependency of those that have one.
    new-IsFree :
        (r : Run V) (k : String)
        → Reach saga_def r
        → lookup k r.ctx.step_statuses ≡ none
        → (x : String) → 0 < count x (started r)
        → IsFree saga_def x k
    new-IsFree r k reached missing x listed preds depends = elim (zero-cases (count k preds)) [
      | inl free ↦ free
      | inr needed ↦ elim (Option-cases (lookup x r.ctx.step_statuses)) [
        | inl absent ↦ ground (arith, lookup-none x r.ctx.step_statuses)
        | inr (s, begun) ↦
            let is_done =
              (Reach-begun saga_def r once reached x k preds s begun depends needed).0 in
            ground (arith, missing, is_done)
      ]
    ]

    written-Pairwise :
        (r r' : Run V)
        → Reach saga_def r
        → Pairwise (IsFree saga_def) (started r)
        → IsWritten r r'
        → Pairwise (IsFree saga_def) (started r')
    written-Pairwise r r' reached pairs (inl same) =
        subst (λ d. Pairwise (IsFree saga_def) (keys d)) (sym same) pairs
    written-Pairwise r r' reached pairs (inr (k, s, written)) =
        elim (Option-cases (lookup k r.ctx.step_statuses)) [
          | inl missing ↦
              subst (Pairwise (IsFree saga_def))
                (sym (ap keys written ∙ keys-insert_new k s r.ctx.step_statuses missing))
                (Pairwise-snoc (IsFree saga_def) (started r) k pairs (
                  listed-All (λ x. IsFree saga_def x k) (started r)
                    (new-IsFree r k reached missing)))
          | inr (was, found) ↦
              subst (Pairwise (IsFree saga_def))
                (sym (ap keys written ∙ keys-insert_known k s was r.ctx.step_statuses found)) pairs
        ]

    -- No step is started before one of its dependencies.
    pub Reach-Pairwise :
        (r : Run V) → Reach saga_def r → Pairwise (IsFree saga_def) (keys r.ctx.step_statuses)
    unfolding Pairwise initial keys
    Reach-Pairwise r (Reach.begin layers layered) = tt
    Reach-Pairwise r (Reach.next {r = before} reached unfinished step) =
        written-Pairwise before r reached (Reach-Pairwise before reached)
          (Step-IsWritten before r step)
