-- ===== src/Container/Keeps.antt =====
-- What resolution leaves as it is, and how this carries over to blocks of code.
use pyfly.Common.{
  ℕ, ◌+◌, ◌<◌, String, true, false, ◌≡◌, ◌≢◌, refl, sym, ◌∙◌, none, some, List, lookup, count,
  length, IsWithin, subst,
}
use pyfly.Container.State.{
  BeanError, out_of_fuel, Answer, ok, err, Registration, Container, Act, pure, raise, continue,
  ◌>>=◌, handle, except_missing, update, is_missing,
}

-- Each registration object has one implementation type, its `owner`.
module _ (owner : ℕ → String) where
  -- What later states of one resolution share. An instance once set stays, and while a type is being
  -- created no instance of it is set.
  pub record Later (s s' : Container) : Type 0 where
    pub same_registrations : s'.registrations ≡ s.registrations
    pub same_named : s'.named ≡ s.named
    pub same_bindings : s'.bindings ≡ s.bindings
    pub same_resolving : s'.resolving ≡ s.resolving
    pub kept : (k v : ℕ) → s.instances k ≡ some v → s'.instances k ≡ some v
    pub unset :
        (k : ℕ) → 0 < count (owner k) s.resolving → s.instances k ≡ none → s'.instances k ≡ none

  pub Later-refl : (s : Container) → Later s s
  Later-refl s = record {
    same_registrations = refl;
    same_named = refl;
    same_bindings = refl;
    same_resolving = refl;
    kept = λ k v h. h;
    unset = λ k busy h. h;
  }

  pub Later-trans : {s t u : Container} → Later s t → Later t u → Later s u
  Later-trans a b = record {
    same_registrations = b.same_registrations ∙ a.same_registrations;
    same_named = b.same_named ∙ a.same_named;
    same_bindings = b.same_bindings ∙ a.same_bindings;
    same_resolving = b.same_resolving ∙ a.same_resolving;
    kept = λ k v h. b.kept k v (a.kept k v h);
    unset = λ k busy h.
        b.unset k (subst (λ xs. 0 < count (owner k) xs) (sym a.same_resolving) busy)
          (a.unset k busy h);
  }

  -- `types` are the implementation types of the registrations.
  module _ (types : List String) where
    abbrev pub IsFiled : Registration → Type 0
    IsFiled reg = (0 < count reg.impl_type types) × (owner reg.key ≡ reg.impl_type)

    -- With `fuel` left, more constructors may be called inside one another than there are types that
    -- are not being created.
    pub record IsReady (fuel : ℕ) (s : Container) : Type 0 where
      pub registered :
          (k : String) (reg : Registration) → lookup k s.registrations ≡ some reg → IsFiled reg
      pub named : (k : String) (reg : Registration) → lookup k s.named ≡ some reg → IsFiled reg
      pub within : IsWithin s.resolving types
      pub room : length types < fuel + length s.resolving

    pub IsReady-Later :
        {fuel : ℕ} {s s' : Container} → Later s s' → IsReady fuel s → IsReady fuel s'
    IsReady-Later l r = record {
      registered = rw (sym l.same_registrations) at r.registered;
      named = rw (sym l.same_named) at r.named;
      within = rw (sym l.same_resolving) at r.within;
      room = rw (sym l.same_resolving) at r.room;
    }

    module _ (fuel : ℕ) where
      abbrev pub IsGoodAt : {A : Type 0} → Container → Answer A × Container → Type 0
      IsGoodAt s (r, s') = Later s s' × (r ≢ err out_of_fuel)

      -- The code keeps what `Later` says and has fuel enough.
      abbrev pub IsGood : {A : Type 0} → Act A → Type 0
      IsGood m = (s : Container) → IsReady fuel s → IsGoodAt s (m s)

      pub pure-IsGood : {A : Type 0} (a : A) → IsGood (pure a)
      pure-IsGood a s ready = (Later-refl s, λ e. cc)

      pub raise-IsGood : {A : Type 0} (e : BeanError) → e ≢ out_of_fuel → IsGood (raise {A = A} e)
      raise-IsGood e other s ready = (Later-refl s, λ h. other (cc))

      pub update-IsGood :
          (f : Container → Container) → ((s : Container) → Later s (f s)) → IsGood (update f)
      update-IsGood f keeps s ready = (keeps s, λ e. cc)

      continue-IsGood :
          {A B : Type 0} (s s' : Container) (r : Answer A) (f : A → Act B)
          → IsReady fuel s
          → IsGoodAt s (r, s')
          → ((a : A) → IsGood (f a))
          → IsGoodAt s (continue r f s')
      continue-IsGood s s' (err e) f ready (l, enough) good = (l, λ h. enough (cc))
      continue-IsGood s s' (ok a) f ready (l, enough) good =
          let (l', enough') = good a s' (IsReady-Later l ready) in (Later-trans l l', enough')

      pub bind-IsGood :
          {A B : Type 0} (m : Act A) (f : A → Act B)
          → IsGood m
          → ((a : A) → IsGood (f a))
          → IsGood (m >>= f)
      bind-IsGood m f good_m good s ready =
          continue-IsGood s (m s).1 (m s).0 f ready (good_m s ready) good

      handle-IsGood :
          {A : Type 0} (s s' : Container) (r : Answer A) (handler : Act A)
          → IsReady fuel s
          → IsGoodAt s (r, s')
          → IsGood handler
          → IsGoodAt s (handle r handler s')
      handle-IsGood {A} s s' (ok a) handler ready (l, enough) good = (l, enough)
      handle-IsGood {A} s s' (err e) handler ready (l, enough) good =
          elim (is_missing e)
            as (λ b. IsGoodAt {A = A} s (elim b [ true ↦ handler s' | false ↦ (err e, s') ])) [
              | true ↦
                  let (l', enough') = good s' (IsReady-Later l ready) in (Later-trans l l', enough')
              | false ↦ (l, enough)
            ]

      pub except_missing-IsGood :
          {A : Type 0} (m handler : Act A)
          → IsGood m
          → IsGood handler
          → IsGood (except_missing m handler)
      except_missing-IsGood m handler good_m good s ready =
          handle-IsGood s (m s).1 (m s).0 handler ready (good_m s ready) good
