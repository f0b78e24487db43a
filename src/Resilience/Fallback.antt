-- ===== src/Resilience/Fallback.antt =====
-- resilience/fallback.py: a wrapped function, and what is answered in place of its exceptions.
use pyfly.Common.{
  Bool, true, false, ◌≡◌, ◌⊎◌, inl, inr, refl, subst, Option, none, some, List, [], ◌∷◌, ◌++◌,
  Bool-cases, if◌then◌else◌, arith,
}
use pyfly.Common.Effects.{
  Exception, Result, ok, err, value_error, World, Act, pure, raise, perform, try_except,
  Result-cases,
}

-- The function is called, or the fallback method with the exception.
pub data Event : Type 0 where
  called : Event
  fell_back : Exception → Event

-- A fallback method goes before a fallback value.
pub data Fallback (V : Type 0) : Type 0 where
  to_method : Fallback V
  to_value : V → Fallback V

unfoldable pub fallback : {V : Type 0} → Bool → Option V → Result (Fallback V)
fallback true fallback_value = ok to_method
fallback false none = err value_error
fallback false (some value) = ok (to_value value)

module _ {V : Type 0} (world : World Event V) (on : Exception → Bool) where
  unfoldable pub answer : Fallback V → Exception → Act Event V
  answer to_method exc = perform world (fell_back exc)
  answer (to_value value) exc = pure value

  -- The wrapper; a TypeError of the method is raised again as a TypeError.
  unfoldable pub wrapper : Fallback V → Act Event V
  unfolding answer
  wrapper f = try_except (perform world called) λ exc. if on exc then answer f exc else raise exc

  -- A wrapped function raises in two cases only: it raised an exception that is not of the types given,
  -- or the fallback method, which was called with the function's exception, raised.
  pub wrapper-raises :
      (f : Fallback V) (h : List Event) (e : Exception)
      → (wrapper f h).0 ≡ err e
      → ((on e ≡ false) × (world h called ≡ err e))
        ⊎ ((exc : Exception) × (on exc ≡ true)
            × (world h called ≡ err exc)
            × (f ≡ to_method)
            × (world (h ++ called ∷ []) (fell_back exc) ≡ err e))
  unfolding wrapper answer
  wrapper-raises to_method h e raised = elim (Result-cases (world h called)) [
    | inl (v, returned) ↦ ground arith
    | inr (exc, threw) ↦ elim (Bool-cases (on exc)) [
      | inl caught ↦ inr (exc, caught, threw, refl, ground arith)
      | inr passed ↦
          let same : exc ≡ e = ground arith in
          inl (subst (λ x. (on x ≡ false) × (world h called ≡ err x)) same (passed, threw))
    ]
  ]
  wrapper-raises (to_value value) h e raised = elim (Result-cases (world h called)) [
    | inl (v, returned) ↦ ground arith
    | inr (exc, threw) ↦ elim (Bool-cases (on exc)) [
      | inl caught ↦ ground arith
      | inr passed ↦
          let same : exc ≡ e = ground arith in
          inl (subst (λ x. (on x ≡ false) × (world h called ≡ err x)) same (passed, threw))
    ]
  ]
