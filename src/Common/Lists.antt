-- ===== src/Common/Lists.antt =====
-- Lists measured by native numbers, and how often a text stands in a list.
use Prim.Native.Nat.{ℕ, suc, ◌+◌, ◌≤◌}
use Prim.Native.String.{String}
use mathlib.Core.Path.{◌≡◌, refl}
use mathlib.Core.Bool.{Bool, true, false}
use mathlib.Core.List.{List, [], ◌∷◌, ◌++◌}
use native.Mathlib.Omega.{arith}
use text.Mathlib.Text.{◌==◌ as str_eq}
use text.Mathlib.TextEquality.{eq_iff}
use pyfly.Common.Tests.{if◌then◌else◌}

module _ {ℓ} {A : Type ℓ} where
  abbrev pub length : List A → ℕ
  length [] = 0
  length (x ∷ xs) = suc (length xs)

  abbrev pub is_empty : List A → Bool
  is_empty [] = true
  is_empty (x ∷ xs) = false

  pub length-append : (xs ys : List A) → length (xs ++ ys) ≡ length xs + length ys
  length-append [] ys = omega arith
  length-append (x ∷ xs) ys = omega (arith, length-append xs ys)

  abbrev pub All {κ} : (A → Type κ) → List A → Type κ
  All P [] = Unit
  All P (x ∷ xs) = P x × All P xs

  pub All-append {κ} : (P : A → Type κ) (xs ys : List A) → All P xs → All P ys → All P (xs ++ ys)
  All-append P [] ys hx hy = hy
  All-append P (x ∷ xs) ys hx hy = (hx.0, All-append P xs ys hx.1 hy)

-- How often `k` stands in the list.
unfoldable pub count : String → List String → ℕ
count k [] = 0
count k (x ∷ xs) = (if str_eq x k then 1 else 0) + count k xs

pub count-append : (k : String) (xs ys : List String) → count k (xs ++ ys) ≡ count k xs + count k ys
unfolding count
count-append k [] ys = omega arith
count-append k (x ∷ xs) ys = ground (arith, count-append k xs ys)

unfoldable pub mem : String → List String → Bool
mem k [] = false
mem k (x ∷ xs) = if str_eq x k then true else mem k xs

-- No text stands twice, as a test.
unfoldable pub no_repeats : List String → Bool
unfolding mem
no_repeats [] = true
no_repeats (x ∷ xs) = if mem x xs then false else no_repeats xs

pub count-mem : (k : String) (xs : List String) → mem k xs ≡ false → count k xs ≡ 0
unfolding mem count
count-mem k [] h = refl
count-mem k (x ∷ xs) h = ground (arith, count-mem k xs)

pub count-no_repeats : (k : String) (xs : List String) → no_repeats xs ≡ true → count k xs ≤ 1
unfolding no_repeats count
count-no_repeats k [] h = omega arith
count-no_repeats k (x ∷ xs) h = ground (arith, count-no_repeats k xs, eq_iff x k, count-mem x xs)

abbrev pub concat {ℓ} : {A : Type ℓ} → List (List A) → List A
concat [] = []
concat (l ∷ ls) = l ++ concat ls
