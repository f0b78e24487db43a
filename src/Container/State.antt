-- ===== src/Container/State.antt =====
-- container/container.py, registry.py, types.py: the state of the container. A class stands for itself
-- by its qualified name, and what the container reads off it by reflection is given as a `BeanClass`.
-- An instance is a number, drawn when its constructor is called. No name is `none`. Timings are left
-- out. Resolutions run one after another: in the source, the lock covers the creation of a singleton
-- only, and resolutions of the other scopes in several threads may interleave.
use pyfly.Common.{ℕ, String, Bool, true, false, Option, List, Dict}

pub data BeanError : Type 0 where
  no_such_bean no_unique_bean currently_in_creation runtime_error key_error : BeanError
  -- by a constructor
  raised : ℕ → BeanError
  out_of_fuel : BeanError

-- NoSuchBeanError, NoUniqueBeanError
abbrev pub is_missing : BeanError → Bool
is_missing no_such_bean = true
is_missing no_unique_bean = true
is_missing _ = false

pub data Answer (A : Type 0) : Type 0 where
  ok : A → Answer A
  err : BeanError → Answer A

-- What code outside of the container does when it is called.
pub data Outcome (A : Type 0) : Type 0 where
  returns : A → Outcome A
  raises : ℕ → Outcome A

pub data Scope : Type 0 where
  singleton transient request : Scope

-- `key` is the identity of the object, whose `instance` is in the container's `instances`.
pub record Registration : Type 0 where
  pub key : ℕ
  pub impl_type : String
  pub scope : Scope
  pub name : Option String

-- What is injected: an instance, a list of them, None, or a value of the configuration.
pub data Value : Type 0 where
  bean : ℕ → Value
  beans : List ℕ → Value
  nothing : Value
  setting : String → Value

-- `annotated` is Annotated[T, ...] without a qualifier, `class_reference` is `type` or type[T].
pub data ParamType : Type 0 where
  plain optional list_of qualified : String → ParamType
  annotated : ParamType → ParamType
  class_reference : ParamType

pub record Param : Type 0 where
  pub param_name : String
  pub param_type : ParamType
  pub has_default : Bool

-- The class attributes with a type hint: `Value(...)`, `Autowired(...)`, or neither.
pub data Field : Type 0 where
  config_value : (attr_name key : String) → Field
  autowired :
      (attr_name : String) → (qualifier : Option String) → ParamType → (required : Bool) → Field
  untouched : (attr_name : String) → Field

pub record BeanClass : Type 0 where
  pub qualname : String
  pub bean_name : Option String
  pub own_scope : Option Scope
  pub primary : Bool
  pub params : List Param
  pub fields : List Field

pub record Container : Type 0 where
  pub registrations : Dict Registration
  pub named : Dict Registration
  pub bindings : Dict (List String)
  pub resolving : List String
  -- `resolution_count` of the metrics
  pub resolution_counts : Dict ℕ
  pub instances : ℕ → Option ℕ
  pub next_key : ℕ
  -- the classes whose constructors have been called: instance `n` is of the n-th class
  pub constructed : List String
  pub assigned : List (ℕ × String × Value)
  -- the attributes of the active RequestContext, if there is one
  pub request_attributes : Option (Dict ℕ)

abbrev pub Act : Type 0 → Type 0
Act A = Container → Answer A × Container

abbrev pub pure : {A : Type 0} → A → Act A
pure a s = (ok a, s)

abbrev pub raise : {A : Type 0} → BeanError → Act A
raise e s = (err e, s)

-- The rest of a block, after the answer of its first part.
abbrev pub continue : {A B : Type 0} → Answer A → (A → Act B) → Act B
continue (ok a) f s = f a s
continue (err e) f s = (err e, s)

infixl 5 ◌>>=◌ ◌>>◌
abbrev pub ◌>>=◌ : {A B : Type 0} → Act A → (A → Act B) → Act B
◌>>=◌ m f s = let (r, s') = m s in continue r f s'

abbrev pub ◌>>◌ : {A B : Type 0} → Act A → Act B → Act B
◌>>◌ m n = m >>= λ _. n

-- `except (NoSuchBeanError, NoUniqueBeanError)`
abbrev pub handle : {A : Type 0} → Answer A → Act A → Act A
handle (ok a) handler s = (ok a, s)
handle (err e) handler s = elim (is_missing e) [ true ↦ handler s | false ↦ (err e, s) ]

abbrev pub except_missing : {A : Type 0} → Act A → Act A → Act A
except_missing m handler s = let (r, s') = m s in handle r handler s'

abbrev pub update : (Container → Container) → Act (Unit {0})
update f s = (ok tt, f s)
