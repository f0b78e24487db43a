-- ===== src/Container/Resolve.antt =====
-- container/container.py: resolution. `_create_instance` takes fuel, one unit for each
-- constructor in progress; the methods below it take the call of it that they make.
use pyfly.Common.{
  ℕ, zero, suc, String, Bool, true, false, Option, none, some, List, [], ◌∷◌, ◌++◌, Dict, lookup,
  lookup_or, mem, length, if◌then◌else◌,
}
use pyfly.Container.State.{
  BeanError, no_such_bean, no_unique_bean, currently_in_creation, runtime_error, key_error, raised,
  out_of_fuel, Outcome, returns, raises, ok, err, Scope, singleton, transient, request,
  Registration, Value, bean, beans, nothing, setting, ParamType, plain, optional, list_of,
  qualified, annotated, class_reference, Param, Field, config_value, autowired, untouched,
  BeanClass, Container, Act, pure, raise, ◌>>=◌, ◌>>◌, except_missing, update,
}
pub use pyfly.Container.Registry.{
  or_given, either_name, set_instance, push_resolving, pop_resolving,
}
unfoldable pub use pyfly.Container.Registry.{
  file_name, register, bind, count_resolution, remove, finally_pop, set_attribute,
}

abbrev pub one_bean : Act ℕ → Act Value
one_bean m = do v ← m; pure (bean v)

abbrev pub set_attr : ℕ → String → Value → Act (Unit {0})
set_attr v attr_name value =
    update λ s. record s { assigned = s.assigned ++ (v, attr_name, value) ∷ [] }

abbrev pub is_annotated : ParamType → Bool
is_annotated (qualified name) = true
is_annotated (annotated base_type) = true
is_annotated _ = false

abbrev pub config_instance : Container → Option Registration → Option ℕ
config_instance s none = none
config_instance s (some reg) = s.instances reg.key

abbrev pub draw : String → Outcome (Unit {0}) → Act ℕ
draw cls (raises e) s = (err (raised e), s)
draw cls (returns _) s =
    (ok (length s.constructed), record s { constructed = s.constructed ++ cls ∷ [] })

abbrev pub assign_setting : ℕ → String → Outcome String → Act (Unit {0})
assign_setting v attr_name (raises e) = raise (raised e)
assign_setting v attr_name (returns text) = set_attr v attr_name (setting text)

-- The types that occur are `classes`; `constructor` is what calling a class does, and `read_setting`
-- what the configuration answers to a key of `Value(...)`.
module _ (classes : String → BeanClass)
    (constructor : String → List (String × Value) → Outcome (Unit {0}))
    (read_setting : ℕ → String → Outcome String) where
  -- The methods that lead to `_create_instance`, given the call of it.
  module _ (create : Registration → Act ℕ) where
    abbrev pub found_or_create : Registration → Option ℕ → Act ℕ
    found_or_create reg (some v) = do update (count_resolution reg.impl_type); pure v
    found_or_create reg none = do
      v ← create reg
      update (set_instance reg.key v)
      update (count_resolution reg.impl_type)
      pure v

    abbrev pub found_or_create_in_request : Registration → Option ℕ → Act ℕ
    found_or_create_in_request reg (some v) = pure v
    found_or_create_in_request reg none = do
      v ← create reg
      update (set_attribute reg.impl_type v)
      pure v

    abbrev pub in_request : Registration → Option (Dict ℕ) → Act ℕ
    in_request reg none = raise runtime_error
    in_request reg (some attributes) =
        found_or_create_in_request reg (lookup reg.impl_type attributes)

    -- _resolve_request_scoped; the attribute's name is made from the class's name
    unfoldable pub resolve_request_scoped : Registration → Act ℕ
    unfolding lookup set_attribute
    resolve_request_scoped reg s = in_request reg s.request_attributes s

    abbrev pub in_scope : Scope → Registration → Act ℕ
    in_scope singleton reg = λ s. found_or_create reg (s.instances reg.key) s
    in_scope request reg = do
      v ← resolve_request_scoped reg
      update (count_resolution reg.impl_type)
      pure v
    in_scope transient reg = do v ← create reg; update (count_resolution reg.impl_type); pure v

    unfoldable pub resolve_registration : Registration → Act ℕ
    unfolding count_resolution resolve_request_scoped
    resolve_registration reg = in_scope reg.scope reg

    abbrev pub resolve_found : BeanError → Option Registration → Act ℕ
    resolve_found e none = raise e
    resolve_found e (some reg) = resolve_registration reg

    -- self._resolve_registration(self._registrations[impl])
    abbrev pub resolve_impl : String → Act ℕ
    resolve_impl impl s = resolve_found key_error (lookup impl s.registrations) s

    abbrev pub first_primary : List String → Option String
    first_primary [] = none
    first_primary (impl ∷ impls) = if (classes impl).primary then some impl else first_primary impls

    abbrev pub resolve_primary : Option String → Act ℕ
    resolve_primary none = raise no_unique_bean
    resolve_primary (some impl) = resolve_impl impl

    abbrev pub resolve_bound : List String → Act ℕ
    resolve_bound [] = raise no_such_bean
    resolve_bound (impl ∷ []) = resolve_impl impl
    resolve_bound (impl ∷ impl' ∷ impls) = resolve_primary (first_primary (impl ∷ impl' ∷ impls))

    abbrev pub resolve_direct : String → Option Registration → Act ℕ
    resolve_direct cls (some reg) = resolve_registration reg
    resolve_direct cls none = λ s. resolve_bound (lookup_or cls s.bindings []) s

    unfoldable pub resolve : String → Act ℕ
    unfolding resolve_registration lookup lookup_or
    resolve cls s = resolve_direct cls (lookup cls s.registrations) s

    unfoldable pub resolve_by_name : String → Act ℕ
    unfolding resolve_registration lookup
    resolve_by_name name s = resolve_found no_such_bean (lookup name s.named) s

    unfoldable pub resolve_each : List String → Act (List ℕ)
    unfolding resolve_registration lookup
    resolve_each [] = pure []
    resolve_each (impl ∷ impls) = do v ← resolve_impl impl; vs ← resolve_each impls; pure (v ∷ vs)

    unfoldable pub resolve_all : String → Act (List ℕ)
    unfolding resolve_each lookup_or
    resolve_all cls s = resolve_each (lookup_or cls s.bindings []) s

    unfoldable pub resolve_param : ParamType → Act Value
    unfolding resolve resolve_by_name resolve_all
    resolve_param (qualified name) = one_bean (resolve_by_name name)
    resolve_param (annotated base_type) = resolve_param base_type
    resolve_param (optional cls) = except_missing (one_bean (resolve cls)) (pure nothing)
    resolve_param (list_of cls) = do vs ← resolve_all cls; pure (beans vs)
    resolve_param class_reference = raise no_such_bean
    resolve_param (plain cls) = one_bean (resolve cls)

    -- The constructor's arguments; a parameter that is missing and has a default is left out.
    abbrev pub resolve_arg : Param → Act (List (String × Value))
    resolve_arg p =
        except_missing (do v ← resolve_param p.param_type; pure ((p.param_name, v) ∷ []))
          (if p.has_default then pure [] else raise no_such_bean)

    unfoldable pub resolve_params : List Param → Act (List (String × Value))
    unfolding resolve_param
    resolve_params [] = pure []
    resolve_params (p ∷ params) = do
      arg ← resolve_arg p
      args ← resolve_params params
      pure (arg ++ args)

    -- `self.resolve(attr_type)`: a type other than a class is bound to nothing.
    abbrev pub resolve_hint : ParamType → Act Value
    resolve_hint (plain cls) = one_bean (resolve cls)
    resolve_hint attr_type = raise no_such_bean

    abbrev pub resolve_field : Option String → ParamType → Bool → Act Value
    resolve_field (some name) attr_type required = one_bean (resolve_by_name name)
    resolve_field none attr_type required =
        if is_annotated attr_type
        then resolve_param attr_type
        else except_missing (resolve_hint attr_type)
            (if required then raise no_such_bean else pure nothing)

    abbrev pub inject_setting : ℕ → String → String → Option ℕ → Act (Unit {0})
    inject_setting v attr_name key none = raise runtime_error
    inject_setting v attr_name key (some config) =
        assign_setting v attr_name (read_setting config key)

    abbrev pub inject_field : ℕ → Field → Act (Unit {0})
    inject_field v (config_value attr_name key) =
        λ s. inject_setting v attr_name key (config_instance s (lookup "Config" s.registrations)) s
    inject_field v (untouched attr_name) = pure tt
    inject_field v (autowired attr_name qualifier attr_type required) = do
      value ← resolve_field qualifier attr_type required
      set_attr v attr_name value

    -- _inject_autowired_fields
    unfoldable pub inject_fields : ℕ → List Field → Act (Unit {0})
    unfolding resolve resolve_by_name resolve_param lookup
    inject_fields v [] = pure tt
    inject_fields v (f ∷ fields) = do inject_field v f; inject_fields v fields

    unfoldable pub build : BeanClass → Act ℕ
    unfolding resolve_params inject_fields
    build c = do
      kwargs ← resolve_params c.params
      v ← draw c.qualname (constructor c.qualname kwargs)
      inject_fields v c.fields
      pure v

  unfoldable pub create_instance : ℕ → Registration → Act ℕ
  unfolding build mem finally_pop
  create_instance zero reg = raise out_of_fuel
  create_instance (suc fuel) reg = λ s. elim (mem reg.impl_type s.resolving) [
    | true ↦ (err currently_in_creation, s)
    | false ↦
        finally_pop reg.impl_type
          (build (create_instance fuel) (classes reg.impl_type) (push_resolving reg.impl_type s))
  ]
