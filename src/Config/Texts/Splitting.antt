-- ===== src/Config/Texts/Splitting.antt =====
-- core/config.py: that the pieces of a text are the matches of the regular expression, and what is
-- between them.
use Prim.Native.Char.{Char}
use Prim.Native.String.{[] as empty, ◌∷◌ as char_then}
use pyfly.Common.Texts.{is_char, one, cat}
use pyfly.Common.{
  String, Bool, true, false, List, [], ◌∷◌, ◌++◌, ◌≡◌, ◌≢◌, ◌⊎◌, refl, ap, ◌∙◌, Bool-cases, inl,
  inr, if◌then◌else◌, arith,
}
use pyfly.Config.Texts.{
  Piece, literal, reference, Scan, outside, dollar, inside, dollar_sign, open_brace, close_brace,
  literals, pending, read_outside, read_dollar, read_inside, step, pieces, show, show-literals,
  show-pieces,
}

unfoldable pub has_close : String → Bool
has_close empty = false
has_close (char_then c s) = let rest = has_close s in if is_char close_brace c then true else rest

abbrev pub begins_close : String → Bool
begins_close empty = false
begins_close (char_then c s) = is_char close_brace c

-- No placeholder goes on with this text after its `${`.
abbrev pub NoMatch : String → Type 0
NoMatch text = (begins_close text ≡ true) ⊎ (has_close text ≡ false)

-- If this character and the next piece are `${`, no placeholder begins there.
abbrev pub NoStart : Char → List Piece → Type 0
NoStart c [] = Unit {0}
NoStart c (reference inner ∷ ps) = Unit {0}
NoStart c (literal d ∷ ps) =
    is_char dollar_sign c ≡ true → is_char open_brace d ≡ true → NoMatch (show ps)

-- The name in a reference has a character, and none that is `}`; and no placeholder begins at a
-- literal character.
abbrev pub IsSplit : List Piece → Type 0
IsSplit [] = Unit {0}
IsSplit (literal c ∷ ps) = NoStart c ps × IsSplit ps
IsSplit (reference inner ∷ ps) = (inner ≢ "") × (has_close inner ≡ false) × IsSplit ps

NoStart-other : (c : Char) (ps : List Piece) → is_char dollar_sign c ≡ false → NoStart c ps
NoStart-other c [] other = tt
NoStart-other c (reference inner ∷ ps) other = tt
NoStart-other c (literal d ∷ ps) other = λ same brace. absurd (cc)

-- The next piece is not the character `{`.
abbrev NoBrace : List Piece → Type 0
NoBrace [] = Unit {0}
NoBrace (reference inner ∷ ps) = Unit {0}
NoBrace (literal d ∷ ps) = is_char open_brace d ≡ false

NoStart-NoBrace : (c : Char) (ps : List Piece) → NoBrace ps → NoStart c ps
NoStart-NoBrace c [] no_brace = tt
NoStart-NoBrace c (reference inner ∷ ps) no_brace = tt
NoStart-NoBrace c (literal d ∷ ps) no_brace = λ same brace. absurd (cc)

has_close-cat :
    (s : String) (c : Char)
    → has_close s ≡ false
    → is_char close_brace c ≡ false
    → has_close (cat s (one c)) ≡ false
unfolding has_close cat
has_close-cat empty c none other = ground (arith, other)
has_close-cat (char_then d s) c none other = elim (Bool-cases (is_char close_brace d)) [
  | inl same ↦ absurd (ground (arith, same, none))
  | inr different ↦
      ground (arith, different, has_close-cat s c (ground (arith, none, different)) other)
]

has_close-tail : (c : Char) (s : String) → has_close (char_then c s) ≡ false → has_close s ≡ false
unfolding has_close
has_close-tail c s none = elim (Bool-cases (is_char close_brace c)) [
  | inl same ↦ absurd (ground (arith, same, none))
  | inr different ↦ ground (arith, none, different)
]

-- Text without a `}` holds no placeholder.
NoStart-literals : (c : Char) (s : String) → has_close s ≡ false → NoStart c (literals s)
unfolding literals
NoStart-literals c empty none = tt
NoStart-literals c (char_then d s) none =
    λ same brace. inr (ap has_close (show-literals s) ∙ has_close-tail d s none)

literals-IsSplit : (s : String) → has_close s ≡ false → IsSplit (literals s)
unfolding literals
literals-IsSplit empty none = tt
literals-IsSplit (char_then c s) none =
    (NoStart-literals c s (has_close-tail c s none), literals-IsSplit s (has_close-tail c s none))

-- What holds of the pieces of a text that stands behind what has been read.
abbrev Fine : Scan → List Piece → Type 0
Fine outside ps = IsSplit ps
Fine dollar ps = NoBrace ps × IsSplit ps
Fine (inside inner) ps = has_close inner ≡ false → NoBrace ps × IsSplit ps

abbrev after : List Piece × Scan → String → List Piece
after (out, next) s = out ++ pieces next s

read_outside-Fine :
    (b : Bool) (c : Char) (s : String)
    → is_char dollar_sign c ≡ b
    → ((next : Scan) → Fine next (pieces next s))
    → Fine outside (after (read_outside b c) s)
read_outside-Fine true c s e fine = (fine dollar).1
read_outside-Fine false c s e fine = (NoStart-other c (pieces outside s) e, fine outside)

read_dollar-Fine :
    (b d : Bool) (c : Char) (s : String)
    → is_char open_brace c ≡ b
    → is_char dollar_sign c ≡ d
    → ((next : Scan) → Fine next (pieces next s))
    → Fine dollar (after (read_dollar b d c) s)
unfolding has_close
read_dollar-Fine true d c s e e' fine = fine (inside empty) refl
read_dollar-Fine false true c s e e' fine =
    (refl, (NoStart-NoBrace dollar_sign (pieces dollar s) (fine dollar).0, (fine dollar).1))
read_dollar-Fine false false c s e e' fine =
    (refl, (λ same brace. absurd (cc), (NoStart-other c (pieces outside s) e', fine outside)))

read_inside-Fine :
    (b : Bool) (inner : String) (c : Char) (s : String)
    → is_char close_brace c ≡ b
    → ((next : Scan) → Fine next (pieces next s))
    → Fine (inside inner) (after (read_inside b inner c) s)
unfolding read_inside show
read_inside-Fine false inner c s e fine =
    λ none. fine (inside (cat inner (one c))) (has_close-cat inner c none e)
read_inside-Fine true empty c s e fine = λ none. (
  refl,
  (
    λ same brace. inl refl,
    (
      NoStart-other open_brace (literal close_brace ∷ pieces outside s) refl,
      (NoStart-other close_brace (pieces outside s) refl, fine outside),
    ),
  ),
)
read_inside-Fine true (char_then d inner) c s e fine = λ none. (tt, (λ is. cc, none, fine outside))

pieces-Fine : (s : String) (scan : Scan) → Fine scan (pieces scan s)
unfolding pieces step pending literals show
pieces-Fine empty outside = tt
pieces-Fine empty dollar = (refl, (tt, tt))
pieces-Fine empty (inside inner) = λ none. (
  refl,
  (
    λ same brace. inr (ap has_close (show-literals inner) ∙ none),
    (NoStart-literals open_brace inner none, literals-IsSplit inner none),
  ),
)
pieces-Fine (char_then c s) outside =
    read_outside-Fine (is_char dollar_sign c) c s refl (pieces-Fine s)
pieces-Fine (char_then c s) dollar =
    read_dollar-Fine (is_char open_brace c) (is_char dollar_sign c) c s refl refl (pieces-Fine s)
pieces-Fine (char_then c s) (inside inner) =
    read_inside-Fine (is_char close_brace c) inner c s refl (pieces-Fine s)

-- The pieces of a text, each written as it was found, are the text. Each reference has a name of at
-- least one character, none of which is `}`. And no placeholder begins at a character that is left as
-- it is: where it and the next piece are the characters `${`, the text behind them begins with `}` or
-- has no `}`.
pub pieces-IsSplit : (s : String) → (show (pieces outside s) ≡ s) × IsSplit (pieces outside s)
pieces-IsSplit s = (show-pieces s, pieces-Fine s outside)
