-- ===== src/Container/Registering.antt =====
-- The registrations of a container belong together, whatever is registered and bound.
use pyfly.Common.{
  ℕ, ◌+◌, ◌<◌, String, ◌≡◌, subst, Option, none, some, [], lookup, insert, keys, count, ◌==◌,
  eq_iff, lookup-insert, count-keys-insert, lookup-none, lookup-of_count_zero, if◌then◌else◌, arith,
  str_eq-cases, inl, inr,
}
use pyfly.Container.State.{Scope, Registration, BeanClass, Container}
use pyfly.Container.Resolve.{register, bind, file_name, either_name, or_given}

-- Every registration is filed under its type, each object has one type, and nothing is being created.
pub record IsConsistent (s : Container) : Type 0 where
  pub owner : ℕ → String
  pub registered :
      (k : String) (reg : Registration)
      → lookup k s.registrations ≡ some reg
      → (reg.impl_type ≡ k) × (owner reg.key ≡ reg.impl_type) × (reg.key < s.next_key)
  pub named :
      (k : String) (reg : Registration)
      → lookup k s.named ≡ some reg
      → (0 < count reg.impl_type (keys s.registrations))
        × (owner reg.key ≡ reg.impl_type)
        × (reg.key < s.next_key)
  pub resting : s.resolving ≡ []

module _ (s : Container) (c : IsConsistent s) where
  pub bind-IsConsistent :
      (interface implementation : String) → IsConsistent (bind interface implementation s)
  unfolding bind
  bind-IsConsistent interface implementation = record {
    owner = c.owner;
    registered = c.registered;
    named = c.named;
    resting = c.resting;
  }

  module _ (b : BeanClass) (scope : Scope) (name : Option String) where
    owner_of : ℕ → String
    owner_of k = if s.next_key == k then b.qualname else c.owner k

    abbrev new_registration : Registration
    new_registration = record {
      key = s.next_key;
      impl_type = b.qualname;
      scope = or_given b.own_scope scope;
      name = either_name name b.bean_name;
    }

    kept_owner : (k : ℕ) (t : String) → k < s.next_key → c.owner k ≡ t → owner_of k ≡ t
    unfolding owner_of
    kept_owner k t old is = ground arith

    new_owner : owner_of s.next_key ≡ b.qualname
    unfolding owner_of
    new_owner = ground arith

    still_listed :
        (t : String) (reg : Registration)
        → 0 < count t (keys s.registrations)
        → 0 < count t (keys (insert b.qualname reg s.registrations))
    still_listed t reg listed =
        ground
          (arith, count-keys-insert b.qualname t reg s.registrations, lookup-none t s.registrations)

    now_listed :
        (reg : Registration) → 0 < count b.qualname (keys (insert b.qualname reg s.registrations))
    now_listed reg = ground (
      arith,
      count-keys-insert b.qualname b.qualname reg s.registrations,
      lookup-of_count_zero b.qualname s.registrations,
      eq_iff b.qualname b.qualname,
    )

    register-registered :
        (k : String) (reg : Registration)
        → lookup k (insert b.qualname new_registration s.registrations) ≡ some reg
        → (reg.impl_type ≡ k) × (owner_of reg.key ≡ reg.impl_type) × (reg.key < s.next_key + 1)
    register-registered k reg found = elim (str_eq-cases b.qualname k) [
      | inl (same, test) ↦
          let is : new_registration ≡ reg =
            ground
              (arith, found, lookup-insert b.qualname k new_registration s.registrations, test) in
          subst (λ r. (r.impl_type ≡ k) × (owner_of r.key ≡ r.impl_type) × (r.key < s.next_key + 1))
            is (same, new_owner, omega arith)
      | inr (_, differ) ↦
          let (filed, owned, below) = c.registered k reg (
            ground (
              arith,
              found,
              lookup-insert b.qualname k new_registration s.registrations,
              differ,
            )) in
          (filed, kept_owner reg.key reg.impl_type below owned, omega arith)
    ]

    old_named :
        (k : String) (reg : Registration)
        → lookup k s.named ≡ some reg
        → (0 < count reg.impl_type (keys (insert b.qualname new_registration s.registrations)))
          × (owner_of reg.key ≡ reg.impl_type)
          × (reg.key < s.next_key + 1)
    old_named k reg found =
        let (listed, owned, below) = c.named k reg found in
        (
          still_listed reg.impl_type new_registration listed,
          kept_owner reg.key reg.impl_type below owned,
          omega arith,
        )

    register-named :
        (o : Option String) (k : String) (reg : Registration)
        → lookup k (file_name o new_registration s.named) ≡ some reg
        → (0 < count reg.impl_type (keys (insert b.qualname new_registration s.registrations)))
          × (owner_of reg.key ≡ reg.impl_type)
          × (reg.key < s.next_key + 1)
    unfolding file_name
    register-named none k reg found = old_named k reg found
    register-named (some n) k reg found = elim (str_eq-cases n k) [
      | inl (same, test) ↦
          let is : new_registration ≡ reg =
            ground (arith, found, lookup-insert n k new_registration s.named, test) in
          subst
            (λ r.
              (0 < count r.impl_type (keys (insert b.qualname new_registration s.registrations)))
              × (owner_of r.key ≡ r.impl_type)
              × (r.key < s.next_key + 1))
            is (now_listed new_registration, new_owner, omega arith)
      | inr (_, differ) ↦
          old_named k reg
            (ground (arith, found, lookup-insert n k new_registration s.named, differ))
    ]

    -- Registering a class keeps a consistent container consistent, also where the class or the name is
    -- taken again.
    pub register-IsConsistent : IsConsistent (register b scope name s)
    unfolding register
    register-IsConsistent = record {
      owner = owner_of;
      registered = register-registered;
      named = register-named (either_name name b.bean_name);
      resting = c.resting;
    }
