-- ===== src/Container/Parts.antt =====
-- Each method of the resolution keeps what `Later` says, if `_create_instance` does.
use pyfly.Common.{
  ℕ, ◌<◌, String, ◌≡◌, ◌≢◌, refl, sym, ap, ◌∙◌, subst, Option, none, some, List, [], ◌∷◌, Dict,
  lookup, lookup_or, count, ◌==◌, ◌⊎◌, Bool-cases, inl, inr, arith,
}
use pyfly.Container.State.{
  BeanError, no_such_bean, no_unique_bean, runtime_error, key_error, out_of_fuel, Outcome, Answer,
  ok, err, Scope, singleton, transient, request, Registration, Value, BeanClass, Container, Act,
  pure, continue, ◌>>◌, update,
}
use pyfly.Container.Resolve.{
  count_resolution, set_instance, found_or_create, set_attribute, found_or_create_in_request,
  in_request, resolve_request_scoped, in_scope, resolve_registration, resolve_found, resolve_impl,
  first_primary, resolve_primary, resolve_bound, resolve_direct, resolve, resolve_by_name,
  resolve_each, resolve_all,
}
use pyfly.Container.Keeps.{
  Later, Later-trans, IsFiled, IsReady, IsGoodAt, IsGood, pure-IsGood, raise-IsGood, update-IsGood,
  bind-IsGood,
}

eq-cases : (a b : ℕ) → (a ≡ b) ⊎ (a ≢ b)
eq-cases a b = elim (Bool-cases (a == b)) [
  | inl same ↦ inl (ground arith)
  | inr differ ↦ inr (λ e. ground arith)
]

module _ (classes : String → BeanClass)
    (constructor : String → List (String × Value) → Outcome (Unit {0}))
    (read_setting : ℕ → String → Outcome String) (owner : ℕ → String) (types : List String)
    (fuel : ℕ) where
  abbrev pub Good : {A : Type 0} → Act A → Type 0
  Good m = IsGood owner types fuel m

  -- What `_create_instance` has to do for the methods that call it.
  pub record Creates (reg : Registration) (s : Container) (r : Answer ℕ × Container) : Type 0 where
    pub good : IsGoodAt owner types fuel s r
    pub refuses : 0 < count reg.impl_type s.resolving → (e : BeanError) × (r.0 ≡ err e)
    pub free : s.instances reg.key ≡ none → r.1.instances reg.key ≡ none

  -- A change that none of the fields of `Later` sees.
  abbrev count-Later : (cls : String) (s : Container) → Later owner s (count_resolution cls s)
  unfolding count_resolution
  count-Later cls s = record {
    same_registrations = refl;
    same_named = refl;
    same_bindings = refl;
    same_resolving = refl;
    kept = λ k v h. h;
    unset = λ k busy h. h;
  }

  module _ (create : Registration → Act ℕ)
      (creates : (reg : Registration) (s : Container)
        → IsFiled owner types reg
        → IsReady owner types fuel s
        → Creates reg s (create reg s)) where
    counted-IsGood : (cls : String) (v : ℕ) → Good (do update (count_resolution cls); pure v)
    counted-IsGood cls v =
        bind-IsGood owner types fuel (update (count_resolution cls)) (λ _. pure v)
          (update-IsGood owner types fuel (count_resolution cls) (count-Later cls))
          (λ _. pure-IsGood owner types fuel v)

    pub create-IsGood : (reg : Registration) → IsFiled owner types reg → Good (create reg)
    create-IsGood reg filed s ready = (creates reg s filed ready).good

    set_instance-Later :
        (reg : Registration) (v : ℕ) (s s' : Container)
        → owner reg.key ≡ reg.impl_type
        → Later owner s s'
        → s.instances reg.key ≡ none
        → ((0 < count reg.impl_type s.resolving) → ⊥)
        → Later owner s (set_instance reg.key v s')
    set_instance-Later reg v s s' owned l fresh idle = record {
      same_registrations = l.same_registrations;
      same_named = l.same_named;
      same_bindings = l.same_bindings;
      same_resolving = l.same_resolving;
      kept = λ k w h. ground (arith, l.kept k w h);
      unset = λ k busy h. elim (eq-cases reg.key k) [
        | inl same ↦
            absurd (idle (subst (λ t. 0 < count t s.resolving) (sym (ap owner same) ∙ owned) busy))
        | inr differ ↦ ground (arith, l.unset k busy h)
      ];
    }

    stored-IsGoodAt :
        (reg : Registration) (s s' : Container) (r : Answer ℕ)
        → owner reg.key ≡ reg.impl_type
        → Creates reg s (r, s')
        → s.instances reg.key ≡ none
        → IsGoodAt owner types fuel s (
            continue r
              (λ v. do
                update (set_instance reg.key v)
                update (count_resolution reg.impl_type)
                pure v)
              s')
    stored-IsGoodAt reg s s' (err e) owned c fresh = c.good
    stored-IsGoodAt reg s s' (ok v) owned c fresh = (
      Later-trans owner
          (set_instance-Later reg v s s' owned c.good.0 fresh
            (λ busy. let (e, refused) = c.refuses busy in cc))
          (count-Later reg.impl_type (set_instance reg.key v s')),
      λ e. cc,
    )

    found-IsGoodAt :
        (reg : Registration) (s : Container) (o : Option ℕ)
        → IsFiled owner types reg
        → IsReady owner types fuel s
        → s.instances reg.key ≡ o
        → IsGoodAt owner types fuel s
            (found_or_create classes constructor read_setting create reg o s)
    found-IsGoodAt reg s (some v) filed ready is = counted-IsGood reg.impl_type v s ready
    found-IsGoodAt reg s none filed ready is =
        stored-IsGoodAt reg s (create reg s).1 (create reg s).0 filed.1 (creates reg s filed ready)
          is

    attribute-Later : (key : String) (v : ℕ) (s : Container) → Later owner s (set_attribute key v s)
    unfolding set_attribute
    attribute-Later key v s = record {
      same_registrations = refl;
      same_named = refl;
      same_bindings = refl;
      same_resolving = refl;
      kept = λ k v h. h;
      unset = λ k busy h. h;
    }

    in_request-IsGood :
        (reg : Registration) (o : Option (Dict ℕ))
        → IsFiled owner types reg
        → Good (in_request classes constructor read_setting create reg o)
    in_request-IsGood reg none filed = raise-IsGood owner types fuel runtime_error (λ e. cc)
    in_request-IsGood reg (some attributes) filed =
        in_request_found (lookup reg.impl_type attributes)
      where
        in_request_found :
            (o : Option ℕ)
            → Good (found_or_create_in_request classes constructor read_setting create reg o)
        in_request_found (some v) = pure-IsGood owner types fuel v
        in_request_found none =
            bind-IsGood owner types fuel (create reg) _ (create-IsGood reg filed) λ v.
              bind-IsGood owner types fuel (update (set_attribute reg.impl_type v)) _
                (update-IsGood owner types fuel (set_attribute reg.impl_type v)
                  (attribute-Later reg.impl_type v))
                (λ _. pure-IsGood owner types fuel v)

    request-IsGood :
        (reg : Registration)
        → IsFiled owner types reg
        → Good (resolve_request_scoped classes constructor read_setting create reg)
    unfolding resolve_request_scoped
    request-IsGood reg filed s ready = in_request-IsGood reg s.request_attributes filed s ready

    in_scope-IsGood :
        (scope : Scope) (reg : Registration)
        → IsFiled owner types reg
        → Good (in_scope classes constructor read_setting create scope reg)
    in_scope-IsGood singleton reg filed =
        λ s ready. found-IsGoodAt reg s (s.instances reg.key) filed ready refl
    in_scope-IsGood request reg filed =
        bind-IsGood owner types fuel
          (resolve_request_scoped classes constructor read_setting create reg) _
          (request-IsGood reg filed) (counted-IsGood reg.impl_type)
    in_scope-IsGood transient reg filed =
        bind-IsGood owner types fuel (create reg) _ (create-IsGood reg filed)
          (counted-IsGood reg.impl_type)

    pub registration-IsGood :
        (reg : Registration)
        → IsFiled owner types reg
        → Good (resolve_registration classes constructor read_setting create reg)
    unfolding resolve_registration
    registration-IsGood reg filed = in_scope-IsGood reg.scope reg filed

    resolve_found-IsGood :
        (e : BeanError) (o : Option Registration)
        → e ≢ out_of_fuel
        → ((reg : Registration) → o ≡ some reg → IsFiled owner types reg)
        → Good (resolve_found classes constructor read_setting create e o)
    resolve_found-IsGood e none other filed = raise-IsGood owner types fuel e other
    resolve_found-IsGood e (some reg) other filed = registration-IsGood reg (filed reg refl)

    pub impl-IsGood :
        (impl : String) → Good (resolve_impl classes constructor read_setting create impl)
    impl-IsGood impl s ready =
        resolve_found-IsGood key_error (lookup impl s.registrations) (λ e. cc)
          (ready.registered impl) s ready

    pub by_name-IsGood :
        (name : String) → Good (resolve_by_name classes constructor read_setting create name)
    unfolding resolve_by_name
    by_name-IsGood name s ready =
        resolve_found-IsGood no_such_bean (lookup name s.named) (λ e. cc) (ready.named name) s ready

    each-IsGood :
        (impls : List String) → Good (resolve_each classes constructor read_setting create impls)
    unfolding resolve_each
    each-IsGood [] = pure-IsGood owner types fuel []
    each-IsGood (impl ∷ impls) =
        bind-IsGood owner types fuel (resolve_impl classes constructor read_setting create impl) _
          (impl-IsGood impl)
          λ v.
            bind-IsGood owner types fuel
              (resolve_each classes constructor read_setting create impls) _ (each-IsGood impls)
              λ vs. pure-IsGood owner types fuel (v ∷ vs)

    pub all-IsGood : (cls : String) → Good (resolve_all classes constructor read_setting create cls)
    unfolding resolve_all
    all-IsGood cls s ready = each-IsGood (lookup_or cls s.bindings []) s ready

    primary-IsGood :
        (o : Option String) → Good (resolve_primary classes constructor read_setting create o)
    primary-IsGood none = raise-IsGood owner types fuel no_unique_bean (λ e. cc)
    primary-IsGood (some impl) = impl-IsGood impl

    bound-IsGood :
        (impls : List String) → Good (resolve_bound classes constructor read_setting create impls)
    bound-IsGood [] = raise-IsGood owner types fuel no_such_bean (λ e. cc)
    bound-IsGood (impl ∷ []) = impl-IsGood impl
    bound-IsGood (impl ∷ impl' ∷ impls) =
        primary-IsGood
          (first_primary classes constructor read_setting create (impl ∷ impl' ∷ impls))

    direct-IsGood :
        (cls : String) (o : Option Registration)
        → ((reg : Registration) → o ≡ some reg → IsFiled owner types reg)
        → Good (resolve_direct classes constructor read_setting create cls o)
    direct-IsGood cls (some reg) filed = registration-IsGood reg (filed reg refl)
    direct-IsGood cls none filed = λ s ready. bound-IsGood (lookup_or cls s.bindings []) s ready

    pub resolve-IsGood : (cls : String) → Good (resolve classes constructor read_setting create cls)
    unfolding resolve
    resolve-IsGood cls s ready =
        direct-IsGood cls (lookup cls s.registrations) (ready.registered cls) s ready
