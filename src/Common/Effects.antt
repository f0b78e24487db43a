-- ===== src/Common/Effects.antt =====
-- Code that awaits other code and may raise. Whatever it calls (a step's method, an events port, a
-- clock, `asyncio.sleep`) is an event, and the outside world answers an event with a value or an
-- exception, which may depend on all that was called before. The history outlives an exception.
use Prim.Native.Nat.{ℕ}
use mathlib.Core.Path.{◌≡◌, refl}
use mathlib.Core.Logic.{◌⊎◌, inl, inr}
use mathlib.Core.Bool.{Bool, true, false}
use mathlib.Core.List.{List, [], ◌∷◌, ◌++◌}

pub data Exception : Type 0 where
  -- raised by code outside of the program, a timeout included
  external : ℕ → Exception
  value_error key_error runtime_error type_error : Exception
  rate_limited bulkhead_full circuit_open : Exception
  -- of the command and query buses, which wrap what they catch
  not_implemented invalid unauthorized handler_not_found : Exception
  command_processing query_processing : Exception → Exception

pub data Result {ℓ} (A : Type ℓ) : Type ℓ where
  ok : A → Result A
  err : Exception → Result A

abbrev pub is_ok {ℓ} : {A : Type ℓ} → Result A → Bool
is_ok (ok a) = true
is_ok (err e) = false

pub err_of_not_ok {ℓ} :
    {A : Type ℓ} (r : Result A) → is_ok r ≡ false → (e : Exception) × (r ≡ err e)
err_of_not_ok (ok a) h = cc
err_of_not_ok (err e) h = (e, refl)

pub Result-cases {ℓ} :
    {A : Type ℓ} (r : Result A) → ((a : A) × (r ≡ ok a)) ⊎ ((e : Exception) × (r ≡ err e))
Result-cases (ok a) = inl (a, refl)
Result-cases (err e) = inr (e, refl)

-- What is answered to an event after a history.
abbrev pub World : Type 0 → Type 0 → Type 0
World Event V = List Event → Event → Result V

abbrev pub Act : Type 0 → Type 0 → Type 0
Act Event A = List Event → Result A × List Event

module _ {Event A : Type 0} where
  abbrev pub pure : A → Act Event A
  pure a h = (ok a, h)

  abbrev pub raise : Exception → Act Event A
  raise e h = (err e, h)

abbrev pub perform : {Event V : Type 0} → World Event V → Event → Act Event V
perform world event h = (world h event, h ++ event ∷ [])

module _ {Event A B : Type 0} where
  abbrev pub continue : Result A → (A → Act Event B) → Act Event B
  continue (ok a) f h = f a h
  continue (err e) f h = (err e, h)

  infixl 5 ◌>>=◌ ◌>>◌
  abbrev pub ◌>>=◌ : Act Event A → (A → Act Event B) → Act Event B
  ◌>>=◌ m f h = let (r, h') = m h in continue r f h'

  abbrev pub ◌>>◌ : Act Event A → Act Event B → Act Event B
  ◌>>◌ m n = m >>= λ _. n

module _ {Event A : Type 0} where
  abbrev pub on_error : Result A → (Exception → Act Event A) → Act Event A
  on_error (ok a) handler h = (ok a, h)
  on_error (err e) handler h = handler e h

  -- `try: body` / `except Exception as exc: handler`
  abbrev pub try_except : Act Event A → (Exception → Act Event A) → Act Event A
  try_except body handler h = let (r, h') = body h in on_error r handler h'

-- `if test: action`
abbrev pub when : {Event : Type 0} → Bool → Act Event (Unit {0}) → Act Event (Unit {0})
when true action = action
when false action = pure tt
