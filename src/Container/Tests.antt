-- ===== src/Container/Tests.antt =====
-- A service with its repository, and two classes that need each other.
use pyfly.Common.{
  ℕ, suc, String, false, ◌≡◌, ◌≢◌, refl, none, some, List, [], ◌∷◌, lookup, lookup_or, insert, mem,
  length, str_eq, if◌then◌else◌,
}
use pyfly.Container.State.{
  currently_in_creation, out_of_fuel, Outcome, returns, raises, ok, err, singleton, transient,
  Value, plain, Param, BeanClass, Container,
}
use pyfly.Container.Resolve.{
  register, file_name, remove, finally_pop, count_resolution, resolve, resolve_param,
  resolve_params, resolve_registration, inject_fields, build, create_instance,
}
use pyfly.Container.Keeps.{Later, Later-refl}
use pyfly.Container.Registering.{IsConsistent, register-IsConsistent}
use pyfly.Container.Singletons.{resolve_with, resolve-Later, resolve-resolve}

abbrev class_of : String → List Param → BeanClass
class_of qualname params = record {
  qualname = qualname;
  bean_name = none;
  own_scope = none;
  primary = false;
  params = params;
  fields = [];
}

abbrev param_of : String → Param
param_of cls = record { param_name = "arg"; param_type = plain cls; has_default = false }

-- Ping and Pong need each other, Service needs Repo.
abbrev classes : String → BeanClass
classes name =
    if str_eq name "Service"
    then class_of name (param_of "Repo" ∷ [])
    else if str_eq name "Ping"
    then class_of name (param_of "Pong" ∷ [])
    else if str_eq name "Pong"
    then class_of name (param_of "Ping" ∷ [])
    else class_of name []

abbrev builds : String → List (String × Value) → Outcome (Unit {0})
builds cls kwargs = returns tt

abbrev no_settings : ℕ → String → Outcome String
no_settings config key = raises 0

abbrev no_beans : Container
no_beans = record {
  registrations = [];
  named = [];
  bindings = [];
  resolving = [];
  resolution_counts = [];
  instances = λ k. none;
  next_key = 0;
  constructed = [];
  assigned = [];
  request_attributes = none;
}

no_beans-IsConsistent : IsConsistent no_beans
unfolding lookup
no_beans-IsConsistent = record {
  owner = λ k. "";
  registered = λ k reg found. cc;
  named = λ k reg found. cc;
  resting = refl;
}

unfoldable app : Container
unfolding register
app = register (classes "Pong") singleton none (
    register (classes "Ping") singleton none (
      register (classes "Service") singleton none
        (register (classes "Repo") singleton none no_beans)))

repo-IsConsistent : IsConsistent (register (classes "Repo") singleton none no_beans)
repo-IsConsistent =
    register-IsConsistent no_beans no_beans-IsConsistent (classes "Repo") singleton none

app-IsConsistent : IsConsistent app
unfolding app
app-IsConsistent =
    register-IsConsistent _
      (register-IsConsistent _
        (register-IsConsistent _ repo-IsConsistent (classes "Service") singleton none)
        (classes "Ping") singleton none)
      (classes "Pong") singleton none

register-IsConsistent_example : IsConsistent (register (classes "Ping") transient (some "ping") app)
register-IsConsistent_example =
    register-IsConsistent app app-IsConsistent (classes "Ping") transient (some "ping")

circle_refused :
    (resolve_with classes builds no_settings 9 "Ping" app).0 ≡ err currently_in_creation
unfolding app resolve resolve_registration create_instance build resolve_params resolve_param
    inject_fields lookup insert mem remove finally_pop count_resolution file_name
circle_refused = refl

dependency_first :
    (resolve_with classes builds no_settings 9 "Service" app).1.constructed
    ≡ "Repo" ∷ "Service" ∷ []
unfolding app resolve resolve_registration create_instance build resolve_params resolve_param
    inject_fields lookup insert mem remove finally_pop count_resolution file_name lookup_or
dependency_first = refl

resolve-Later_example :
    Later app-IsConsistent.owner app
      (resolve_with classes builds no_settings (suc (length app.registrations)) "Ping" app).1
    × ((resolve_with classes builds no_settings (suc (length app.registrations)) "Ping" app).0
        ≢ err out_of_fuel)
resolve-Later_example = resolve-Later classes builds no_settings app app-IsConsistent "Ping"

unfoldable served : Container
unfolding app
served = (resolve_with classes builds no_settings 9 "Service" app).1

resolve-resolve_example :
    resolve_with classes builds no_settings 9 "Service" served
    ≡ (ok 1, count_resolution "Service" served)
unfolding served app resolve resolve_registration create_instance build resolve_params resolve_param
    inject_fields lookup insert mem remove finally_pop count_resolution file_name
resolve-resolve_example =
    resolve-resolve classes builds no_settings app served served (λ k. "") "Service"
      (record { key = 1; impl_type = "Service"; scope = singleton; name = none }) 1 9 9 refl refl
      refl refl (Later-refl (λ k. "") served)
