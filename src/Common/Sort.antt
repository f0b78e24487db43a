-- ===== src/Common/Sort.antt =====
-- Python's `sorted` on texts: lexicographic by code point, as an insertion sort.
use Prim.Native.Char.{code}
use Prim.Native.String.{String}
use mathlib.Core.Path.{◌≡◌, refl}
use mathlib.Core.Bool.{Bool, true, false}
use mathlib.Core.List.{List, [], ◌∷◌}
use native.Mathlib.Omega.{arith}
use pyfly.Common.Tests.{if◌then◌else◌, ltb, ◌==◌}
use pyfly.Common.Lists.{count, length}

unfoldable pub text_le : String → String → Bool
text_le String.[] t = true
text_le (String.◌∷◌ c s) String.[] = false
text_le (String.◌∷◌ c s) (String.◌∷◌ d t) =
    let rest = text_le s t in
    if ltb (code c) (code d) then true else if code c == code d then rest else false

unfoldable pub place : String → List String → List String
place x [] = x ∷ []
place x (y ∷ ys) = if text_le x y then x ∷ y ∷ ys else y ∷ place x ys

unfoldable pub sorted : List String → List String
unfolding place text_le
sorted [] = []
sorted (x ∷ xs) = place x (sorted xs)

-- Each text is at most the one behind it.
abbrev pub IsSorted : List String → Type 0
IsSorted [] = Unit
IsSorted (x ∷ []) = Unit
IsSorted (x ∷ y ∷ ys) = (text_le x y ≡ true) × IsSorted (y ∷ ys)

text_le_total : (s t : String) → text_le s t ≡ false → text_le t s ≡ true
unfolding text_le
text_le_total String.[] t h = ground arith
text_le_total (String.◌∷◌ c s) String.[] h = refl
text_le_total (String.◌∷◌ c s) (String.◌∷◌ d t) h = ground (arith, text_le_total s t)

place-IsSorted : (x : String) (xs : List String) → IsSorted xs → IsSorted (place x xs)
unfolding place
place-IsSorted x [] h = tt
place-IsSorted x (y ∷ []) h = ground (arith, text_le_total x y)
place-IsSorted x (y ∷ z ∷ zs) h = ground (arith, text_le_total x y, place-IsSorted x (z ∷ zs) h.1)

pub sorted-IsSorted : (xs : List String) → IsSorted (sorted xs)
unfolding sorted
sorted-IsSorted [] = tt
sorted-IsSorted (x ∷ xs) = place-IsSorted x (sorted xs) (sorted-IsSorted xs)

count-place : (k x : String) (xs : List String) → count k (place x xs) ≡ count k (x ∷ xs)
unfolding place count
count-place k x [] = refl
count-place k x (y ∷ ys) = ground (arith, count-place k x ys)

pub count-sorted : (k : String) (xs : List String) → count k (sorted xs) ≡ count k xs
unfolding sorted count
count-sorted k [] = refl
count-sorted k (x ∷ xs) = ground (arith, count-place k x (sorted xs), count-sorted k xs)

length-place : (x : String) (xs : List String) → length (place x xs) ≡ length (x ∷ xs)
unfolding place
length-place x [] = refl
length-place x (y ∷ ys) = ground (arith, length-place x ys)

pub length-sorted : (xs : List String) → length (sorted xs) ≡ length xs
unfolding sorted
length-sorted [] = refl
length-sorted (x ∷ xs) = ground (arith, length-place x (sorted xs), length-sorted xs)
