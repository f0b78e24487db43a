-- ===== src/Common/Pigeons.antt =====
-- A list without repeats whose texts all stand in another is no longer than that one, and if it is
-- as long, it holds them all.
use Prim.Native.Nat.{◌+◌, ◌≤◌}
use Prim.Native.String.{String}
use mathlib.Core.Path.{◌≡◌, refl}
use mathlib.Core.List.{List, [], ◌∷◌}
use native.Mathlib.Omega.{arith}
use text.Mathlib.Text.{◌==◌ as str_eq}
use text.Mathlib.TextEquality.{eq_iff}
use pyfly.Common.Tests.{if◌then◌else◌}
use pyfly.Common.Lists.{count, length}

without : String → List String → List String
without k [] = []
without k (x ∷ xs) = let rest = without k xs in if str_eq x k then rest else x ∷ rest

length-without : (k : String) (xs : List String) → length (without k xs) + count k xs ≡ length xs
unfolding without count
length-without k [] = omega arith
length-without k (x ∷ xs) = ground (arith, length-without k xs)

count-without :
    (k j : String) (xs : List String)
    → count j (without k xs) ≡ (if str_eq k j then 0 else count j xs)
unfolding without count
count-without k j [] = ground arith
count-without k j (x ∷ xs) =
    ground (arith, eq_iff k j, eq_iff x k, eq_iff x j, count-without k j xs)

abbrev pub IsWithin : List String → List String → Type 0
IsWithin xs ks = (k : String) → (count k xs ≤ 1) × (count k ks ≡ 0 → count k xs ≡ 0)

without-IsWithin :
    (k : String) (xs ks : List String) → IsWithin xs (k ∷ ks) → IsWithin (without k xs) ks
unfolding count
without-IsWithin k xs ks h j = ground (arith, h j, count-without k j xs)

nil_of_counts : (xs : List String) → ((k : String) → count k xs ≡ 0) → length xs ≡ 0
unfolding count
nil_of_counts [] h = refl
nil_of_counts (x ∷ xs) h = ground (arith, h x, eq_iff x x)

pub length-le_of_within : (xs ks : List String) → IsWithin xs ks → length xs ≤ length ks
unfolding count
length-le_of_within xs [] h = omega (arith, nil_of_counts xs (λ k. (h k).1 refl))
length-le_of_within xs (k ∷ ks) h = ground (
  arith,
  length-without k xs,
  h k,
  length-le_of_within (without k xs) ks (without-IsWithin k xs ks h),
)

pub count_of_full :
    (xs ks : List String) (j : String)
    → IsWithin xs ks
    → length xs ≡ length ks
    → count j ks ≤ 1
    → count j xs ≡ count j ks
unfolding count
count_of_full xs [] j h e one = (h j).1 refl
count_of_full xs (k ∷ ks) j h e one =
    let inner = without-IsWithin k xs ks h in
    ground (
      arith,
      length-without k xs,
      h k,
      h j,
      count-without k j xs,
      eq_iff k j,
      length-le_of_within (without k xs) ks inner,
      count_of_full (without k xs) ks j inner,
    )
