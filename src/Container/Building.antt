-- ===== src/Container/Building.antt =====
-- The construction of a bean keeps what `Later` says, if `_create_instance` does.
use pyfly.Common.{
  ℕ, String, Bool, true, false, ◌≡◌, refl, ap, ◌∙◌, Option, none, some, List, [], ◌∷◌, ◌++◌, lookup,
  if◌then◌else◌,
}
use pyfly.Container.State.{
  no_such_bean, runtime_error, raised, Outcome, returns, raises, Registration, Value, bean, beans,
  nothing, setting, ParamType, plain, optional, list_of, qualified, annotated, class_reference,
  Param, Field, config_value, autowired, untouched, BeanClass, Container, Act, pure, raise,
  except_missing,
}
use pyfly.Container.Resolve.{
  assign_setting, resolve, resolve_by_name, resolve_all, one_bean, resolve_param, resolve_arg,
  resolve_params, set_attr, is_annotated, resolve_hint, resolve_field, config_instance,
  inject_setting, inject_field, inject_fields, draw, build,
}
use pyfly.Container.Keeps.{
  Later, IsFiled, IsReady, IsGood, pure-IsGood, raise-IsGood, update-IsGood, bind-IsGood,
  except_missing-IsGood,
}
use pyfly.Container.Parts.{Creates, by_name-IsGood, all-IsGood, resolve-IsGood}

module _ (classes : String → BeanClass)
    (constructor : String → List (String × Value) → Outcome (Unit {0}))
    (read_setting : ℕ → String → Outcome String) (owner : ℕ → String) (types : List String)
    (fuel : ℕ) (create : Registration → Act ℕ)
    (creates : (reg : Registration) (s : Container)
      → IsFiled owner types reg
      → IsReady owner types fuel s
      → Creates classes constructor read_setting owner types fuel reg s (create reg s)) where
  abbrev Keeps : {A : Type 0} → Act A → Type 0
  Keeps m = IsGood owner types fuel m

  one-IsGood : (m : Act ℕ) → Keeps m → Keeps (one_bean m)
  one-IsGood m good =
      bind-IsGood owner types fuel m _ good (λ v. pure-IsGood owner types fuel (bean v))

  -- A change that no field of `Later` sees.
  unseen-Later :
      (s s' : Container)
      → s'.registrations ≡ s.registrations
      → s'.named ≡ s.named
      → s'.bindings ≡ s.bindings
      → s'.resolving ≡ s.resolving
      → s'.instances ≡ s.instances
      → Later owner s s'
  unseen-Later s s' r n b g i = record {
    same_registrations = r;
    same_named = n;
    same_bindings = b;
    same_resolving = g;
    kept = λ k v h. ap (λ f. f k) i ∙ h;
    unset = λ k busy h. ap (λ f. f k) i ∙ h;
  }

  param-IsGood : (t : ParamType) → Keeps (resolve_param classes constructor read_setting create t)
  unfolding resolve_param
  param-IsGood (qualified name) =
      one-IsGood (resolve_by_name classes constructor read_setting create name)
        (by_name-IsGood classes constructor read_setting owner types fuel create creates name)
  param-IsGood (annotated t) = param-IsGood t
  param-IsGood (optional cls) =
      except_missing-IsGood owner types fuel
        (one_bean (resolve classes constructor read_setting create cls)) (pure nothing)
        (one-IsGood (resolve classes constructor read_setting create cls)
          (resolve-IsGood classes constructor read_setting owner types fuel create creates cls))
        (pure-IsGood owner types fuel nothing)
  param-IsGood (list_of cls) =
      bind-IsGood owner types fuel (resolve_all classes constructor read_setting create cls) _
        (all-IsGood classes constructor read_setting owner types fuel create creates cls)
        (λ vs. pure-IsGood owner types fuel (beans vs))
  param-IsGood class_reference = raise-IsGood owner types fuel no_such_bean (λ e. cc)
  param-IsGood (plain cls) =
      one-IsGood (resolve classes constructor read_setting create cls)
        (resolve-IsGood classes constructor read_setting owner types fuel create creates cls)

  missing-IsGood :
      {A : Type 0} (b : Bool) (a : A) → Keeps (if b then pure a else raise no_such_bean)
  missing-IsGood true a = pure-IsGood owner types fuel a
  missing-IsGood false a = raise-IsGood owner types fuel no_such_bean (λ e. cc)

  arg-IsGood : (p : Param) → Keeps (resolve_arg classes constructor read_setting create p)
  arg-IsGood p =
      except_missing-IsGood owner types fuel _ _
        (bind-IsGood owner types fuel
          (resolve_param classes constructor read_setting create p.param_type) _
          (param-IsGood p.param_type) (λ v. pure-IsGood owner types fuel ((p.param_name, v) ∷ [])))
        (missing-IsGood p.has_default [])

  params-IsGood :
      (params : List Param) → Keeps (resolve_params classes constructor read_setting create params)
  unfolding resolve_params
  params-IsGood [] = pure-IsGood owner types fuel []
  params-IsGood (p ∷ params) =
      bind-IsGood owner types fuel (resolve_arg classes constructor read_setting create p) _
        (arg-IsGood p)
        λ arg.
          bind-IsGood owner types fuel
            (resolve_params classes constructor read_setting create params) _ (params-IsGood params)
            λ args. pure-IsGood owner types fuel (arg ++ args)

  set_attr-IsGood :
      (v : ℕ) (attr_name : String) (value : Value) → Keeps (set_attr v attr_name value)
  set_attr-IsGood v attr_name value =
      update-IsGood owner types fuel _ λ s. unseen-Later s _ refl refl refl refl refl

  hint-IsGood : (t : ParamType) → Keeps (resolve_hint classes constructor read_setting create t)
  hint-IsGood (plain cls) =
      one-IsGood (resolve classes constructor read_setting create cls)
        (resolve-IsGood classes constructor read_setting owner types fuel create creates cls)
  hint-IsGood (qualified name) = raise-IsGood owner types fuel no_such_bean (λ e. cc)
  hint-IsGood (annotated t) = raise-IsGood owner types fuel no_such_bean (λ e. cc)
  hint-IsGood (optional cls) = raise-IsGood owner types fuel no_such_bean (λ e. cc)
  hint-IsGood (list_of cls) = raise-IsGood owner types fuel no_such_bean (λ e. cc)
  hint-IsGood class_reference = raise-IsGood owner types fuel no_such_bean (λ e. cc)

  unqualified-IsGood :
      (b : Bool) (t : ParamType) (required : Bool)
      → Keeps (
          if b
          then resolve_param classes constructor read_setting create t
          else except_missing
              (resolve_hint classes constructor read_setting create t)
              (if required then raise no_such_bean else pure nothing))
  unqualified-IsGood true t required = param-IsGood t
  unqualified-IsGood false t required =
      except_missing-IsGood owner types fuel
        (resolve_hint classes constructor read_setting create t) _ (hint-IsGood t)
        (required-IsGood required)
    where
      required-IsGood : (b : Bool) → Keeps (if b then raise no_such_bean else pure nothing)
      required-IsGood true = raise-IsGood owner types fuel no_such_bean (λ e. cc)
      required-IsGood false = pure-IsGood owner types fuel nothing

  resolve_field-IsGood :
      (q : Option String) (t : ParamType) (required : Bool)
      → Keeps (resolve_field classes constructor read_setting create q t required)
  resolve_field-IsGood (some name) t required =
      one-IsGood (resolve_by_name classes constructor read_setting create name)
        (by_name-IsGood classes constructor read_setting owner types fuel create creates name)
  resolve_field-IsGood none t required = unqualified-IsGood (is_annotated t) t required

  assign-IsGood :
      (v : ℕ) (attr_name : String) (o : Outcome String) → Keeps (assign_setting v attr_name o)
  assign-IsGood v attr_name (raises e) = raise-IsGood owner types fuel (raised e) (λ h. cc)
  assign-IsGood v attr_name (returns text) = set_attr-IsGood v attr_name (setting text)

  setting-IsGood :
      (v : ℕ) (attr_name key : String) (o : Option ℕ)
      → Keeps (inject_setting classes constructor read_setting create v attr_name key o)
  setting-IsGood v attr_name key none = raise-IsGood owner types fuel runtime_error (λ e. cc)
  setting-IsGood v attr_name key (some config) = assign-IsGood v attr_name (read_setting config key)

  field-IsGood :
      (v : ℕ) (f : Field) → Keeps (inject_field classes constructor read_setting create v f)
  field-IsGood v (config_value attr_name key) = λ s ready.
      setting-IsGood v attr_name key (config_instance s (lookup "Config" s.registrations)) s ready
  field-IsGood v (untouched attr_name) = pure-IsGood owner types fuel tt
  field-IsGood v (autowired attr_name q t required) =
      bind-IsGood owner types fuel
        (resolve_field classes constructor read_setting create q t required) _
        (resolve_field-IsGood q t required) (set_attr-IsGood v attr_name)

  fields-IsGood :
      (v : ℕ) (fields : List Field)
      → Keeps (inject_fields classes constructor read_setting create v fields)
  unfolding inject_fields
  fields-IsGood v [] = pure-IsGood owner types fuel tt
  fields-IsGood v (f ∷ fields) =
      bind-IsGood owner types fuel (inject_field classes constructor read_setting create v f) _
        (field-IsGood v f) (λ _. fields-IsGood v fields)

  draw-IsGood : (cls : String) (r : Outcome (Unit {0})) → Keeps (draw cls r)
  draw-IsGood cls (raises e) = raise-IsGood owner types fuel (raised e) (λ h. cc)
  draw-IsGood cls (returns _) = λ s ready. (unseen-Later s _ refl refl refl refl refl, λ e. cc)

  pub build-IsGood : (c : BeanClass) → Keeps (build classes constructor read_setting create c)
  unfolding build
  build-IsGood c =
      bind-IsGood owner types fuel (resolve_params classes constructor read_setting create c.params)
        _ (params-IsGood c.params)
        λ kwargs.
          bind-IsGood owner types fuel (draw c.qualname (constructor c.qualname kwargs)) _
            (draw-IsGood c.qualname (constructor c.qualname kwargs))
            λ v.
              bind-IsGood owner types fuel
                (inject_fields classes constructor read_setting create v c.fields) _
                (fields-IsGood v c.fields) λ _. pure-IsGood owner types fuel v
