-- ===== src/Container/Singletons.antt =====
-- What a resolution as a whole does: it ends, leaves the registrations as they are, and answers with
-- the same singleton ever after.
use pyfly.Common.{
  ℕ, suc, String, ◌≡◌, ◌≢◌, refl, sym, ap, ◌∙◌, Option, none, some, List, lookup, keys, count,
  length, length-keys, lookup-of_count_zero, arith,
}
use pyfly.Container.State.{
  singleton, out_of_fuel, Outcome, Answer, ok, err, Registration, Value, BeanClass, Container, Act,
  continue, update, pure, ◌>>◌,
}
use pyfly.Container.Resolve.{
  create_instance, resolve, resolve_direct, resolve_registration, in_scope, found_or_create,
  set_instance, count_resolution,
}
use pyfly.Container.Keeps.{Later, IsReady}
use pyfly.Container.Parts.{resolve-IsGood}
use pyfly.Container.Depth.{create-Creates}
use pyfly.Container.Registering.{IsConsistent}

module _ (classes : String → BeanClass)
    (constructor : String → List (String × Value) → Outcome (Unit {0}))
    (read_setting : ℕ → String → Outcome String) where
  abbrev pub resolve_with : ℕ → String → Act ℕ
  resolve_with fuel cls =
      resolve classes constructor read_setting
        (create_instance classes constructor read_setting fuel) cls

  IsConsistent-IsReady :
      (s : Container) (c : IsConsistent s)
      → IsReady c.owner (keys s.registrations) (suc (length s.registrations)) s
  unfolding count
  IsConsistent-IsReady s c = record {
    registered = λ k reg found.
        let (filed, owned, below) = c.registered k reg found in
        (
          ground (
            arith,
            filed,
            ap (λ x. count x (keys s.registrations)) filed,
            lookup-of_count_zero k s.registrations,
          ),
          owned,
        );
    named = λ k reg found. let (listed, owned, below) = c.named k reg found in (listed, owned);
    within = λ k. ground (arith, ap (count k) c.resting);
    room = omega (arith, length-keys s.registrations, ap length c.resting);
  }

  -- A resolution in a consistent container ends, with one constructor call inside another for each
  -- registration and one more at most. Whether it answers or raises, the registrations, names and
  -- bindings are as before, nothing is left marked as being created, and every instance set before is
  -- still set.
  pub resolve-Later :
      (s : Container) (c : IsConsistent s) (cls : String)
      → Later c.owner s (resolve_with (suc (length s.registrations)) cls s).1
        × ((resolve_with (suc (length s.registrations)) cls s).0 ≢ err out_of_fuel)
  resolve-Later s c cls =
      resolve-IsGood classes constructor read_setting c.owner (keys s.registrations)
        (suc (length s.registrations))
        (create_instance classes constructor read_setting (suc (length s.registrations)))
        (create-Creates classes constructor read_setting c.owner (keys s.registrations)
          (suc (length s.registrations)))
        cls s (IsConsistent-IsReady s c)

  module _ (create : Registration → Act ℕ) where
    created_stored :
        (reg : Registration) (r : Answer ℕ) (s s' : Container) (v : ℕ)
        → continue r
            (λ w. do
              update (set_instance reg.key w)
              update (count_resolution reg.impl_type)
              pure w)
            s
          ≡ (ok v, s')
        → s'.instances reg.key ≡ some v
    unfolding count_resolution
    created_stored reg (err e) s s' v done =
        let no : ◌≡◌ {A = Answer ℕ} (err e) (ok v) = ap (λ (r : Answer ℕ × Container). r.0) done in
        cc
    created_stored reg (ok w) s s' v done =
        let same : ◌≡◌ {A = Answer ℕ} (ok w) (ok v) = ap (λ (r : Answer ℕ × Container). r.0) done in
        sym (ap (λ (r : Answer ℕ × Container). r.1.instances reg.key) done) ∙ ground arith

    found_stored :
        (reg : Registration) (o : Option ℕ) (s s' : Container) (v : ℕ)
        → s.instances reg.key ≡ o
        → found_or_create classes constructor read_setting create reg o s ≡ (ok v, s')
        → s'.instances reg.key ≡ some v
    unfolding count_resolution
    found_stored reg (some w) s s' v is done =
        let same : ◌≡◌ {A = Answer ℕ} (ok w) (ok v) = ap (λ (r : Answer ℕ × Container). r.0) done in
        sym (ap (λ (r : Answer ℕ × Container). r.1.instances reg.key) done) ∙ (is ∙ cc)
    found_stored reg none s s' v is done =
        created_stored reg (create reg s).0 (create reg s).1 s' v done

    resolve_singleton :
        (reg : Registration) (cls : String) (s : Container)
        → lookup cls s.registrations ≡ some reg
        → reg.scope ≡ singleton
        → resolve classes constructor read_setting create cls s
          ≡ found_or_create classes constructor read_setting create reg (s.instances reg.key) s
    unfolding resolve resolve_registration
    resolve_singleton reg cls s found single =
        ap (λ o. resolve_direct classes constructor read_setting create cls o s) found
        ∙ ap (λ scope. in_scope classes constructor read_setting create scope reg s) single

  -- A singleton is created once: after a resolution that answers with an instance, each resolution of
  -- its class answers with that instance, with no constructor called and nothing changed but the
  -- count, also in a state that other resolutions have led to, as far as they keep what `Later` says.
  pub resolve-resolve :
      (s s' later : Container) (owner : ℕ → String) (cls : String) (reg : Registration) (v n m : ℕ)
      → lookup cls s.registrations ≡ some reg
      → reg.scope ≡ singleton
      → resolve_with n cls s ≡ (ok v, s')
      → lookup cls later.registrations ≡ some reg
      → Later owner s' later
      → resolve_with m cls later ≡ (ok v, count_resolution reg.impl_type later)
  resolve-resolve s s' later owner cls reg v n m found single done found_later l =
      let first = create_instance classes constructor read_setting n in
      let again = create_instance classes constructor read_setting m in
      let stored =
        found_stored first reg (s.instances reg.key) s s' v refl
          (sym (resolve_singleton first reg cls s found single) ∙ done) in
      resolve_singleton again reg cls later found_later single
      ∙ ap (λ o. found_or_create classes constructor read_setting again reg o later)
          (l.kept reg.key v stored)
