-- ===== src/Config/Texts.antt =====
-- core/config.py: the texts that placeholders are found in. A text is split at `${`, one or more
-- characters other than `}`, and `}`, as the regular expression finds them.
pub mod Splitting
use Prim.Native.Char.{Char, char}
use Prim.Native.String.{[] as empty, ◌∷◌ as char_then}
use pyfly.Common.Texts.{is_char, one, cat, cat-nil, cat_assoc, is_char-eq}
use pyfly.Common.{
  String, Bool, true, false, List, [], ◌∷◌, ◌++◌, ◌≡◌, refl, sym, ap, ◌∙◌, Bool-cases, inl, inr,
}

pub data Piece : Type 0 where
  literal : Char → Piece
  reference : String → Piece

-- What has been read of a placeholder.
pub data Scan : Type 0 where
  outside dollar : Scan
  inside : String → Scan

abbrev pub dollar_sign : Char
dollar_sign = char 36 tt

abbrev pub open_brace : Char
open_brace = char 123 tt

abbrev close_brace : Char
close_brace = char 125 tt

unfoldable literals : String → List Piece
literals empty = []
literals (char_then c s) = literal c ∷ literals s

-- What stands before the next character and is not yet in a piece.
unfoldable pending : Scan → String
pending outside = empty
pending dollar = one dollar_sign
pending (inside inner) = char_then dollar_sign (char_then open_brace inner)

abbrev closed : String → List Piece
closed empty = literal dollar_sign ∷ literal open_brace ∷ literal close_brace ∷ []
closed (char_then c s) = reference (char_then c s) ∷ []

abbrev read_outside : Bool → Char → List Piece × Scan
read_outside true c = ([], dollar)
read_outside false c = (literal c ∷ [], outside)

abbrev read_dollar : (is_brace is_dollar : Bool) → Char → List Piece × Scan
read_dollar true is_dollar c = ([], inside empty)
read_dollar false true c = (literal dollar_sign ∷ [], dollar)
read_dollar false false c = (literal dollar_sign ∷ literal c ∷ [], outside)

abbrev read_inside : Bool → String → Char → List Piece × Scan
unfolding cat
read_inside true inner c = (closed inner, outside)
read_inside false inner c = ([], inside (cat inner (one c)))

unfoldable step : Scan → Char → List Piece × Scan
unfolding read_inside
step outside c = read_outside (is_char dollar_sign c) c
step dollar c = read_dollar (is_char open_brace c) (is_char dollar_sign c) c
step (inside inner) c = read_inside (is_char close_brace c) inner c

unfoldable pub pieces : Scan → String → List Piece
unfolding step pending literals
pieces scan empty = literals (pending scan)
pieces scan (char_then c s) = let (out, next) = step scan c in out ++ pieces next s

-- The text of a piece.
unfoldable pub show : List Piece → String
show [] = empty
show (literal c ∷ ps) = char_then c (show ps)
show (reference inner ∷ ps) =
    char_then dollar_sign (char_then open_brace (cat inner (char_then close_brace (show ps))))

show-append : (ps qs : List Piece) → show (ps ++ qs) ≡ cat (show ps) (show qs)
unfolding show cat
show-append [] qs = refl
show-append (literal c ∷ ps) qs = ap (char_then c) (show-append ps qs)
show-append (reference inner ∷ ps) qs =
    ap (λ t. char_then dollar_sign (char_then open_brace t))
      (ap (λ t. cat inner (char_then close_brace t)) (show-append ps qs)
        ∙ sym (cat_assoc inner (char_then close_brace (show ps)) (show qs)))

show-literals : (s : String) → show (literals s) ≡ s
unfolding show literals
show-literals empty = refl
show-literals (char_then c s) = ap (char_then c) (show-literals s)

closed-show :
    (inner : String)
    → show (closed inner)
      ≡ char_then dollar_sign (char_then open_brace (cat inner (one close_brace)))
unfolding show cat
closed-show empty = refl
closed-show (char_then c s) = refl

abbrev joined : List Piece × Scan → String
unfolding cat show pending
joined (out, next) = cat (show out) (pending next)

after_dollar :
    (c : Char)
    → joined (read_dollar false (is_char dollar_sign c) c) ≡ char_then dollar_sign (one c)
unfolding joined
after_dollar c = elim (Bool-cases (is_char dollar_sign c)) [
  | inl same ↦
      ap (λ b. joined (read_dollar false b c)) same
      ∙ sym (ap (λ x. char_then dollar_sign (one x)) (is_char-eq dollar_sign c same))
  | inr other ↦ ap (λ b. joined (read_dollar false b c)) other
]

-- A character is read into pieces or into what is pending.
step-pending :
    (scan : Scan) (c : Char)
    → cat (show (step scan c).0) (pending (step scan c).1) ≡ cat (pending scan) (one c)
unfolding step joined read_inside
step-pending outside c = elim (Bool-cases (is_char dollar_sign c)) [
  | inl same ↦
      ap (λ b. joined (read_outside b c)) same ∙ sym (ap one (is_char-eq dollar_sign c same))
  | inr other ↦ ap (λ b. joined (read_outside b c)) other
]
step-pending dollar c = elim (Bool-cases (is_char open_brace c)) [
  | inl same ↦
      ap (λ b. joined (read_dollar b (is_char dollar_sign c) c)) same
      ∙ sym (ap (λ x. char_then dollar_sign (one x)) (is_char-eq open_brace c same))
  | inr other ↦ ap (λ b. joined (read_dollar b (is_char dollar_sign c) c)) other ∙ after_dollar c
]
step-pending (inside inner) c = elim (Bool-cases (is_char close_brace c)) [
  | inl same ↦
      ap (λ b. joined (read_inside b inner c)) same
      ∙ (cat-nil (show (closed inner))
          ∙ (closed-show inner
              ∙ sym (
                  ap (λ x. char_then dollar_sign (char_then open_brace (cat inner (one x))))
                    (is_char-eq close_brace c same))))
  | inr other ↦ ap (λ b. joined (read_inside b inner c)) other
]

show-pieces_from : (scan : Scan) (s : String) → show (pieces scan s) ≡ cat (pending scan) s
unfolding pieces
show-pieces_from scan empty = show-literals (pending scan) ∙ sym (cat-nil (pending scan))
show-pieces_from scan (char_then c s) =
    let (out, next) = step scan c in
    show-append out (pieces next s)
    ∙ (ap (cat (show out)) (show-pieces_from next s)
        ∙ (sym (cat_assoc (show out) (pending next) s)
            ∙ (ap (λ t. cat t s) (step-pending scan c) ∙ cat_assoc (pending scan) (one c) s)))

-- Splitting loses nothing: the pieces of a text, each written as it was found, are the text.
pub show-pieces : (s : String) → show (pieces outside s) ≡ s
unfolding pending cat
show-pieces s = show-pieces_from outside s
