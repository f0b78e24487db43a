-- ===== src/Saga/Compensator/Rows.antt =====
-- Failures in a row among the outcomes of compensations.
use pyfly.Common.{
  ℕ, zero, suc, ◌≤◌, ◌<◌, Bool, true, false, ◌≡◌, refl, ap, ◌∙◌, List, [], ◌∷◌, ◌++◌, length,
  length-append, arith,
}

-- The outcomes end with three failures in a row.
abbrev pub EndsInThree : List Bool → Type 0
EndsInThree outcomes = (earlier : List Bool) × (outcomes ≡ earlier ++ false ∷ false ∷ false ∷ [])

-- Three failures in a row stand nowhere but at the end.
abbrev pub NeverThreeBefore : List Bool → Type 0
NeverThreeBefore outcomes =
    (earlier later : List Bool) → outcomes ≡ earlier ++ false ∷ false ∷ false ∷ later → later ≡ []

-- `n` failures before some outcomes.
unfoldable pub fails : ℕ → List Bool → List Bool
fails zero outcomes = outcomes
fails (suc n) outcomes = false ∷ fails n outcomes

after_true :
    (earlier later outcomes : List Bool)
    → NeverThreeBefore outcomes
    → true ∷ outcomes ≡ earlier ++ false ∷ false ∷ false ∷ later
    → later ≡ []
after_true [] later outcomes never e = cc
after_true (o ∷ earlier) later outcomes never e = never earlier later cc

after_one :
    (earlier later outcomes : List Bool)
    → NeverThreeBefore outcomes
    → false ∷ true ∷ outcomes ≡ earlier ++ false ∷ false ∷ false ∷ later
    → later ≡ []
after_one [] later outcomes never e = cc
after_one (o ∷ earlier) later outcomes never e = after_true earlier later outcomes never cc

after_two :
    (earlier later outcomes : List Bool)
    → NeverThreeBefore outcomes
    → false ∷ false ∷ true ∷ outcomes ≡ earlier ++ false ∷ false ∷ false ∷ later
    → later ≡ []
after_two [] later outcomes never e = cc
after_two (o ∷ earlier) later outcomes never e = after_one earlier later outcomes never cc

pub NeverThreeBefore-success :
    (n : ℕ) (outcomes : List Bool)
    → n < 3
    → NeverThreeBefore outcomes
    → NeverThreeBefore (fails n (true ∷ outcomes))
unfolding fails
NeverThreeBefore-success zero outcomes few never earlier later e =
    after_true earlier later outcomes never e
NeverThreeBefore-success (suc zero) outcomes few never earlier later e =
    after_one earlier later outcomes never e
NeverThreeBefore-success (suc (suc zero)) outcomes few never earlier later e =
    after_two earlier later outcomes never e
NeverThreeBefore-success (suc (suc (suc n))) outcomes few never earlier later e =
    absurd (omega arith)

pub fails-failure :
    (n : ℕ) (outcomes : List Bool) → fails (suc n) outcomes ≡ fails n (false ∷ outcomes)
unfolding fails
fails-failure zero outcomes = refl
fails-failure (suc n) outcomes = ap (λ l. false ∷ l) (fails-failure n outcomes)

fails-append :
    (n : ℕ) (outcomes more : List Bool) → fails n (outcomes ++ more) ≡ fails n outcomes ++ more
unfolding fails
fails-append zero outcomes more = refl
fails-append (suc n) outcomes more = ap (λ l. false ∷ l) (fails-append n outcomes more)

length-fails : (n : ℕ) → length (fails n []) ≡ n
unfolding fails
length-fails zero = refl
length-fails (suc n) = ground (arith, length-fails n)

nil_of_length : (l : List Bool) → length l ≡ 0 → l ≡ []
nil_of_length [] e = refl
nil_of_length (o ∷ l) e = absurd (omega arith)

pub NeverThreeBefore-fails : (n : ℕ) → n ≤ 3 → NeverThreeBefore (fails n [])
NeverThreeBefore-fails n few earlier later e = nil_of_length later (
    omega
      (arith, length-fails n, ap length e, length-append earlier (false ∷ false ∷ false ∷ later)))

pub EndsInThree-success :
    (n : ℕ) (outcomes : List Bool) → EndsInThree outcomes → EndsInThree (fails n (true ∷ outcomes))
EndsInThree-success n outcomes (earlier, e) = (
  fails n (true ∷ earlier),
  ap (λ l. fails n (true ∷ l)) e ∙ fails-append n (true ∷ earlier) (false ∷ false ∷ false ∷ []),
)

pub EndsInThree-fails : (n : ℕ) → n ≤ 3 → 3 ≤ n → EndsInThree (fails n [])
unfolding fails
EndsInThree-fails n few many = let e : n ≡ 3 = omega arith in ([], ap (λ k. fails k []) e)
