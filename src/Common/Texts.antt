-- ===== src/Common/Texts.antt =====
-- Python's texts as they are taken apart and put together, character by character.
use Prim.Native.Char.{Char, code}
use Prim.Native.String.{String, [] as empty, ◌∷◌ as char_then}
use mathlib.Core.Path.{◌≡◌, refl, ap, sym, ◌∙◌}
use mathlib.Core.Bool.{Bool, true, false}
use mathlib.Core.Option.{Option, none, some}
use mathlib.Core.List.{List, [], ◌∷◌}
use mathlib.Core.Logic.{inl, inr}
use native.Mathlib.Omega.{arith}
use text.Mathlib.Text.{◌==◌ as str_eq}
use text.Mathlib.TextEquality.{Char-path, eq_iff}
use pyfly.Common.Tests.{◌==◌, if◌then◌else◌, Bool-cases, Option-cases}

abbrev pub is_char : Char → Char → Bool
is_char d c = code c == code d

abbrev pub one : Char → String
one c = char_then c empty

-- s + t
unfoldable pub cat : String → String → String
cat empty t = t
cat (char_then c s) t = char_then c (cat s t)

-- What follows a prefix.
unfoldable pub strip_prefix : (prefix text : String) → Option String
strip_prefix empty s = some s
strip_prefix (char_then d p) empty = none
strip_prefix (char_then d p) (char_then c s) =
    let rest = strip_prefix p s in if is_char d c then rest else none

pub cat-nil : (s : String) → cat s empty ≡ s
unfolding cat
cat-nil empty = refl
cat-nil (char_then c s) = ap (char_then c) (cat-nil s)

pub cat_assoc : (s t u : String) → cat (cat s t) u ≡ cat s (cat t u)
unfolding cat
cat_assoc empty t u = refl
cat_assoc (char_then c s) t u = ap (char_then c) (cat_assoc s t u)

pub is_char-eq : (d c : Char) → is_char d c ≡ true → c ≡ d
is_char-eq d c test = Char-path c d (ground arith)

some_eq : {s t : String} → ◌≡◌ {A = Option String} (some s) (some t) → s ≡ t
some_eq same = cc

pub strip_prefix-cat : (p s t : String) → strip_prefix p s ≡ some t → s ≡ cat p t
unfolding strip_prefix cat
strip_prefix-cat empty s t found = some_eq found
strip_prefix-cat (char_then d p) empty t found = cc
strip_prefix-cat (char_then d p) (char_then c s) t found = elim (Bool-cases (is_char d c)) [
  | inl same ↦
      ap (λ x. char_then x s) (is_char-eq d c same)
      ∙ ap (char_then d) (
          strip_prefix-cat p s t
            (sym (ap (λ b. if b then strip_prefix p s else none) same) ∙ found))
  | inr other ↦
      let no : ◌≡◌ {A = Option String} none (some t) =
        sym (ap (λ b. if b then strip_prefix p s else none) other) ∙ found in
      cc
]

-- text[: -len(suffix)], where the text ends with the suffix
unfoldable pub strip_suffix : (suffix text : String) → Option String
strip_suffix suffix empty = if str_eq empty suffix then some empty else none
strip_suffix suffix (char_then c s) =
    let rest = strip_suffix suffix s in
    if str_eq (char_then c s) suffix
    then some empty
    else (elim rest [ none ↦ none | some t ↦ some (char_then c t) ])

pub strip_suffix-cat : (p s t : String) → strip_suffix p s ≡ some t → s ≡ cat t p
unfolding strip_suffix cat
strip_suffix-cat p empty t found = elim (Bool-cases (str_eq empty p)) [
  | inl same ↦
      let is : empty ≡ t = some_eq (sym (ap (λ b. if b then some empty else none) same) ∙ found) in
      (eq_iff empty p).0 same ∙ ap (λ x. cat x p) is
  | inr other ↦
      let no : ◌≡◌ {A = Option String} none (some t) =
        sym (ap (λ b. if b then some empty else none) other) ∙ found in
      cc
]
strip_suffix-cat p (char_then c s) t found = elim (Bool-cases (str_eq (char_then c s) p)) [
  | inl same ↦
      let is : empty ≡ t = ground (arith, found, same) in
      (eq_iff (char_then c s) p).0 same ∙ ap (λ x. cat x p) is
  | inr other ↦ elim (Option-cases (strip_suffix p s)) [
    | inl none_there ↦ ground (arith, found, other, none_there)
    | inr (u, inner) ↦
        let is : char_then c u ≡ t = ground (arith, found, other, inner) in
        ap (char_then c) (strip_suffix-cat p s u inner) ∙ ap (λ x. cat x p) is
  ]
]

abbrev pub begin_word : Bool → Char → List String → List String
begin_word true c words = empty ∷ words
begin_word false c [] = one c ∷ []
begin_word false c (word ∷ words) = char_then c word ∷ words

-- text.split(separator)
unfoldable pub split_on : Char → String → List String
split_on separator empty = empty ∷ []
split_on separator (char_then c s) = begin_word (is_char separator c) c (split_on separator s)
