-- ===== src/Common/Dicts.antt =====
-- Python's `dict` with text keys: an association list in insertion order. Writing a key that is
-- there keeps its place, and a new key goes to the end.
use Prim.Native.Nat.{suc, ◌≤◌}
use Prim.Native.String.{String}
use mathlib.Core.Path.{◌≡◌, refl, ap}
use mathlib.Core.Option.{Option, none, some}
use mathlib.Core.List.{List, [], ◌∷◌}
use native.Mathlib.Omega.{arith}
use text.Mathlib.Text.{◌==◌ as str_eq}
use text.Mathlib.TextEquality.{eq_iff}
use pyfly.Common.Tests.{if◌then◌else◌}
use pyfly.Common.Lists.{count, length}

abbrev pub Dict {ℓ} : Type ℓ → Type ℓ
Dict V = List (String × V)

module _ {ℓ} {V : Type ℓ} where
  -- d.get(k)
  unfoldable pub lookup : String → Dict V → Option V
  lookup k [] = none
  lookup k ((j, v) ∷ d) = if str_eq j k then some v else lookup k d

  -- d[k] = v
  unfoldable pub insert : String → V → Dict V → Dict V
  insert k v [] = (k, v) ∷ []
  insert k v ((j, w) ∷ d) = if str_eq j k then (j, v) ∷ d else (j, w) ∷ insert k v d

  -- d.pop(k, None)
  unfoldable pub delete : String → Dict V → Dict V
  delete k [] = []
  delete k ((j, w) ∷ d) = let rest = delete k d in if str_eq j k then rest else (j, w) ∷ rest

  unfoldable pub keys : Dict V → List String
  keys [] = []
  keys ((j, v) ∷ d) = j ∷ keys d

  -- d.get(k, default)
  unfoldable pub lookup_or : String → Dict V → V → V
  unfolding lookup
  lookup_or k d v = elim (lookup k d) [ none ↦ v | some w ↦ w ]

  -- No key stands twice.
  abbrev pub IsDict : Dict V → Type 0
  IsDict d = (k : String) → count k (keys d) ≤ 1

  pub lookup-insert :
      (k j : String) (v : V) (d : Dict V)
      → lookup j (insert k v d) ≡ (if str_eq k j then some v else lookup j d)
  unfolding lookup insert
  lookup-insert k j v [] = refl
  lookup-insert k j v ((i, w) ∷ d) =
      ground (arith, eq_iff k j, eq_iff i k, eq_iff i j, lookup-insert k j v d)

  pub lookup-delete :
      (k j : String) (d : Dict V)
      → lookup j (delete k d) ≡ (if str_eq k j then none else lookup j d)
  unfolding lookup delete
  lookup-delete k j [] = ground arith
  lookup-delete k j ((i, w) ∷ d) =
      ground (arith, eq_iff k j, eq_iff i k, eq_iff i j, lookup-delete k j d)

  -- A key is listed exactly if a look-up finds it.
  pub lookup-none : (k : String) (d : Dict V) → lookup k d ≡ none → count k (keys d) ≡ 0
  unfolding lookup keys count
  lookup-none k [] h = refl
  lookup-none k ((j, v) ∷ d) h = ground (arith, lookup-none k d)

  pub lookup-of_count_zero : (k : String) (d : Dict V) → count k (keys d) ≡ 0 → lookup k d ≡ none
  unfolding lookup keys count
  lookup-of_count_zero k [] h = refl
  lookup-of_count_zero k ((j, v) ∷ d) h = ground (arith, lookup-of_count_zero k d)

  pub count-keys-insert :
      (k j : String) (v : V) (d : Dict V)
      → count j (keys (insert k v d)) ≡ (
          if str_eq k j
          then (elim (lookup j d) [ none ↦ 1 | some _ ↦ count j (keys d) ])
          else count j (keys d))
  unfolding lookup insert keys count
  count-keys-insert k j v [] = ground arith
  count-keys-insert k j v ((i, w) ∷ d) =
      ground (arith, eq_iff k j, eq_iff i k, eq_iff i j, count-keys-insert k j v d, lookup-none j d)

  -- Writing keeps a dict a dict.
  pub insert-IsDict : (k : String) (v : V) (d : Dict V) → IsDict d → IsDict (insert k v d)
  insert-IsDict k v d h j = ground (arith, h j, count-keys-insert k j v d)

  count-keys-delete-le :
      (k j : String) (d : Dict V) → count j (keys (delete k d)) ≤ count j (keys d)
  unfolding delete keys count
  count-keys-delete-le k j [] = ground arith
  count-keys-delete-le k j ((i, w) ∷ d) = ground (arith, count-keys-delete-le k j d)

  pub delete-IsDict : (k : String) (d : Dict V) → IsDict d → IsDict (delete k d)
  delete-IsDict k d h j = ground (arith, h j, count-keys-delete-le k j d)

  pub length-keys : (d : Dict V) → length (keys d) ≡ length d
  unfolding keys
  length-keys [] = refl
  length-keys (x ∷ d) = ap suc (length-keys d)
