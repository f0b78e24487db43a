-- ===== src/Container/Depth.antt =====
-- Resolution ends: constructors nest at most as deep as there are types, since a type that is being
-- created is refused.
use pyfly.Common.{
  ℕ, zero, suc, ◌≤◌, ◌<◌, String, Bool, true, false, ◌≡◌, refl, sym, ap, ◌∙◌, subst, List, [], ◌∷◌,
  ◌++◌, count, mem, IsWithin, length-le_of_within, count-append, length-append, count-mem,
  str_eq-cases, eq_iff, arith, inl, inr,
}
use pyfly.Container.State.{
  currently_in_creation, Outcome, Answer, err, Registration, Value, BeanClass, Container,
}
use pyfly.Container.Resolve.{remove, push_resolving, finally_pop, build, create_instance}
use pyfly.Container.Keeps.{Later-refl, IsFiled, IsReady, IsGoodAt}
use pyfly.Container.Parts.{Creates}
use pyfly.Container.Building.{build-IsGood}

remove_last : (k : String) (xs : List String) → mem k xs ≡ false → remove k (xs ++ k ∷ []) ≡ xs
unfolding remove mem
remove_last k [] h = ground (arith, eq_iff k k)
remove_last k (x ∷ xs) h = ground (arith, remove_last k xs)

mem_of_count : (k : String) (xs : List String) → 0 < count k xs → mem k xs ≡ true
unfolding count mem
mem_of_count k [] h = ground arith
mem_of_count k (x ∷ xs) h = ground (arith, mem_of_count k xs)

last-count : (k : String) (xs : List String) → 0 < count k (xs ++ k ∷ [])
unfolding count
last-count k xs = ground (arith, count-append k xs (k ∷ []), eq_iff k k)

pushed_within :
    (k t : String) (xs types : List String)
    → 0 < count t types
    → mem t xs ≡ false
    → IsWithin xs types
    → (count k (xs ++ t ∷ []) ≤ 1) × (count k types ≡ 0 → count k (xs ++ t ∷ []) ≡ 0)
unfolding count
pushed_within k t xs types listed idle within = elim (str_eq-cases t k) [
  | inl (same, test) ↦ ground (
    arith,
    count-append k xs (t ∷ []),
    count-mem t xs idle,
    within k,
    ap (λ x. count x xs) same,
    ap (λ x. count x types) same,
  )
  | inr (_, differ) ↦ ground (arith, count-append k xs (t ∷ []), within k)
]

module _ (classes : String → BeanClass)
    (constructor : String → List (String × Value) → Outcome (Unit {0}))
    (read_setting : ℕ → String → Outcome String) (owner : ℕ → String) (types : List String) where
  pushed-IsReady :
      (fuel : ℕ) (t : String) (s : Container)
      → 0 < count t types
      → mem t s.resolving ≡ false
      → IsReady owner types (suc fuel) s
      → IsReady owner types fuel (push_resolving t s)
  pushed-IsReady fuel t s listed idle ready = record {
    registered = ready.registered;
    named = ready.named;
    within = λ k. pushed_within k t s.resolving types listed idle ready.within;
    room = omega (arith, ready.room, length-append s.resolving (t ∷ []));
  }

  popped-Creates :
      (fuel : ℕ) (reg : Registration) (s : Container) (r : Answer ℕ) (s' : Container)
      → IsFiled owner types reg
      → mem reg.impl_type s.resolving ≡ false
      → IsGoodAt owner types fuel (push_resolving reg.impl_type s) (r, s')
      → Creates classes constructor read_setting owner types
          (suc fuel)
          reg
          s
          (finally_pop reg.impl_type (r, s'))
  unfolding finally_pop
  popped-Creates fuel reg s r s' filed idle (l, enough) = record {
    good = (
      record {
        same_registrations = l.same_registrations;
        same_named = l.same_named;
        same_bindings = l.same_bindings;
        same_resolving =
            ap (remove reg.impl_type) l.same_resolving ∙ remove_last reg.impl_type s.resolving idle;
        kept = l.kept;
        unset = λ k busy h.
            l.unset k (omega (arith, count-append (owner k) s.resolving (reg.impl_type ∷ []))) h;
      },
      enough,
    );
    refuses = λ busy. let found = mem_of_count reg.impl_type s.resolving busy in cc;
    free = λ h.
        l.unset reg.key
          (subst (λ t. 0 < count t (s.resolving ++ reg.impl_type ∷ [])) (sym filed.1)
            (last-count reg.impl_type s.resolving))
          h;
  }

  refused-Creates :
      (fuel : ℕ) (reg : Registration) (s : Container)
      → Creates classes constructor read_setting owner types fuel reg s
          (err currently_in_creation, s)
  refused-Creates fuel reg s = record {
    good = (Later-refl owner s, λ e. cc);
    refuses = λ busy. (currently_in_creation, refl);
    free = λ h. h;
  }

  step-Creates :
      (fuel : ℕ) (reg : Registration) (s : Container) (b : Bool)
      → mem reg.impl_type s.resolving ≡ b
      → IsFiled owner types reg
      → IsReady owner types (suc fuel) s
      → ((reg' : Registration) (s' : Container)
          → IsFiled owner types reg'
          → IsReady owner types fuel s'
          → Creates classes constructor read_setting owner types fuel reg' s'
              (create_instance classes constructor read_setting fuel reg' s'))
      → Creates classes constructor read_setting owner types (suc fuel) reg s (elim b [
        | true ↦ (err currently_in_creation, s)
        | false ↦ finally_pop reg.impl_type (
            build classes constructor read_setting
              (create_instance classes constructor read_setting fuel)
              (classes reg.impl_type)
              (push_resolving reg.impl_type s))
      ])
  step-Creates fuel reg s true busy filed ready creates = refused-Creates (suc fuel) reg s
  step-Creates fuel reg s false idle filed ready creates =
      let r =
        build classes constructor read_setting
          (create_instance classes constructor read_setting fuel) (classes reg.impl_type)
          (push_resolving reg.impl_type s) in
      popped-Creates fuel reg s r.0 r.1 filed idle (
        build-IsGood classes constructor read_setting owner types fuel
          (create_instance classes constructor read_setting fuel) creates (classes reg.impl_type)
          (push_resolving reg.impl_type s) (pushed-IsReady fuel reg.impl_type s filed.0 idle ready))

  pub create-Creates :
      (fuel : ℕ) (reg : Registration) (s : Container)
      → IsFiled owner types reg
      → IsReady owner types fuel s
      → Creates classes constructor read_setting owner types fuel reg s
          (create_instance classes constructor read_setting fuel reg s)
  unfolding create_instance
  create-Creates zero reg s filed ready =
      absurd (omega (arith, length-le_of_within s.resolving types ready.within, ready.room))
  create-Creates (suc fuel) reg s filed ready =
      step-Creates fuel reg s (mem reg.impl_type s.resolving) refl filed ready (create-Creates fuel)
