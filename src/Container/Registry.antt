-- ===== src/Container/Registry.antt =====
-- container/container.py: what registration and resolution change in the container, one function for
-- each assignment or loop.
use pyfly.Common.{
  ℕ, ◌+◌, String, Option, none, some, List, [], ◌∷◌, ◌++◌, Dict, lookup_or, insert, mem, ◌==◌,
  str_eq, if◌then◌else◌,
}
use pyfly.Container.State.{Answer, Scope, Registration, BeanClass, Container}

abbrev pub or_given {ℓ} : {A : Type ℓ} → Option A → A → A
or_given none a = a
or_given (some b) a = b

abbrev pub either_name : Option String → Option String → Option String
either_name none own = own
either_name (some name) own = some name

unfoldable pub file_name : Option String → Registration → Dict Registration → Dict Registration
unfolding insert
file_name none reg named = named
file_name (some name) reg named = insert name reg named

unfoldable pub register : BeanClass → Scope → Option String → Container → Container
unfolding insert file_name
register c scope name s =
    let reg : Registration = record {
      key = s.next_key;
      impl_type = c.qualname;
      scope = or_given c.own_scope scope;
      name = either_name name c.bean_name;
    } in
    record s {
      next_key = s.next_key + 1;
      registrations = insert c.qualname reg s.registrations;
      named = file_name reg.name reg s.named;
    }

unfoldable pub bind : (interface implementation : String) → Container → Container
unfolding lookup_or insert mem
bind interface implementation s =
    let impls = lookup_or interface s.bindings [] in
    record s {
      bindings =
          insert interface
            (if mem implementation impls then impls else impls ++ implementation ∷ []) s.bindings;
    }

unfoldable pub count_resolution : String → Container → Container
unfolding lookup_or insert
count_resolution impl_type s = record s {
  resolution_counts =
      insert impl_type (lookup_or impl_type s.resolution_counts 0 + 1) s.resolution_counts;
}

abbrev pub set_instance : ℕ → ℕ → Container → Container
set_instance key v s = record s { instances = λ k. if key == k then some v else s.instances k }

abbrev pub push_resolving : String → Container → Container
push_resolving impl_type s = record s { resolving = s.resolving ++ impl_type ∷ [] }

unfoldable pub remove : String → List String → List String
remove k [] = []
remove k (x ∷ xs) = let rest = remove k xs in if str_eq x k then rest else x ∷ rest

abbrev pub pop_resolving : String → Container → Container
unfolding remove
pop_resolving impl_type s = record s { resolving = remove impl_type s.resolving }

unfoldable pub finally_pop : String → Answer ℕ × Container → Answer ℕ × Container
unfolding remove
finally_pop impl_type (r, s) = (r, pop_resolving impl_type s)

unfoldable pub set_attribute : String → ℕ → Container → Container
unfolding insert
set_attribute cache_key v s = record s {
  request_attributes = elim s.request_attributes [
    | none ↦ none
    | some attributes ↦ some (insert cache_key v attributes)
  ];
}
