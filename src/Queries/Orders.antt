-- ===== src/Queries/Orders.antt =====
-- data/query_parser.py, _parse_order: which words of an order text make which order.
use Prim.Native.Char.{Char}
use Prim.Native.String.{[] as empty, ◌∷◌ as char_then}
use pyfly.Common.{
  String, Bool, true, false, none, some, List, [], ◌∷◌, ◌++◌, ◌≡◌, refl, sym, ap, ◌∙◌, subst, All,
  All-append, append_assoc, append-nil, str_eq, eq_iff, inl, inr, Option-cases, Bool-cases, arith,
}
use pyfly.Common.Texts.{cat, is_char, is_char-eq, begin_word, split_on}
use pyfly.Queries.Parser.{
  Direction, asc, desc, OrderClause, direction_of, clause_of, join_words, parse_order, underscore,
}

abbrev pub word_of : Direction → String
word_of asc = "asc"
word_of desc = "desc"

-- The words of a field: none of them is a direction.
abbrev pub IsField : List String → Type 0
IsField = All (λ word. direction_of word ≡ none)

-- Fields, each with the direction that stands after it.
unfoldable pub words_of : List (List String × Direction) → List String
words_of [] = []
words_of ((field, direction) ∷ written) = (field ++ word_of direction ∷ []) ++ words_of written

-- The orders that these stand for; a field of no words makes none.
unfoldable pub orders_of : List (List String × Direction) → List OrderClause
orders_of [] = []
orders_of ((field, direction) ∷ written) =
    clause_of (join_words field) direction ++ orders_of written

-- The words are fields with their directions and a last field with none, which is `asc`; and these are
-- the orders.
pub record Written (words : List String) (orders : List OrderClause) : Type 0 where
  pub written : List (List String × Direction)
  pub last : List String
  pub fields : All (λ (field, direction). IsField field) written
  pub last_field : IsField last
  pub split : words ≡ words_of written ++ last
  pub meant : orders ≡ orders_of written ++ clause_of (join_words last) asc

direction_of-word :
    (word : String) (direction : Direction)
    → direction_of word ≡ some direction
    → word ≡ word_of direction
direction_of-word word asc found = elim (Bool-cases (str_eq word "asc")) [
  | inl is ↦ (eq_iff word "asc").0 is
  | inr other ↦ ground (arith, found, other)
]
direction_of-word word desc found = elim (Bool-cases (str_eq word "desc")) [
  | inl is ↦ (eq_iff word "desc").0 is
  | inr other ↦ ground (arith, found, other)
]

pub parse_order-Written :
    (field words : List String) → IsField field → Written (field ++ words) (parse_order field words)
unfolding parse_order words_of orders_of
parse_order-Written field [] plain = record {
  written = [];
  last = field;
  fields = tt;
  last_field = plain;
  split = append-nil field;
  meant = refl;
}
parse_order-Written field (word ∷ words) plain = elim (Option-cases (direction_of word)) [
  | inl none_found ↦
      rw (none_found, parse_order)
        (subst (λ l. Written l (parse_order (field ++ word ∷ []) words))
          (append_assoc field (word ∷ []) words)
          (parse_order-Written (field ++ word ∷ []) words
            (All-append _ field (word ∷ []) plain (none_found, tt))))
  | inr (direction, found) ↦
      let w = parse_order-Written [] words tt in
      rw (found, parse_order)
        (record {
          written = (field, direction) ∷ w.written;
          last = w.last;
          fields = (plain, w.fields);
          last_field = w.last_field;
          split =
              ap (λ l. field ++ word ∷ l) w.split
              ∙ ap (λ x. field ++ x ∷ (words_of w.written ++ w.last))
                  (direction_of-word word direction found)
              ∙ sym (
                  append_assoc (field ++ word_of direction ∷ []) (words_of w.written) w.last
                  ∙ append_assoc field (word_of direction ∷ []) (words_of w.written ++ w.last));
          meant =
              ap (λ l. clause_of (join_words field) direction ++ l) w.meant
              ∙ sym (
                  append_assoc (clause_of (join_words field) direction) (orders_of w.written)
                    (clause_of (join_words w.last) asc));
        })
]

abbrev HasWord : List String → Type 0
HasWord [] = ⊥
HasWord (word ∷ words) = Unit {0}

begin_word-join_words :
    (b : Bool) (c : Char) (s : String) (words : List String)
    → is_char underscore c ≡ b
    → HasWord words
    → join_words words ≡ s
    → HasWord (begin_word b c words) × (join_words (begin_word b c words) ≡ char_then c s)
unfolding join_words cat
begin_word-join_words b c s [] e has joined = elim has [ ]
begin_word-join_words true c s (word ∷ words) e has joined = (
  tt,
  ap (char_then underscore) joined ∙ sym (ap (λ x. char_then x s) (is_char-eq underscore c e)),
)
begin_word-join_words false c s (word ∷ []) e has joined = (tt, ap (char_then c) joined)
begin_word-join_words false c s (word ∷ word' ∷ words) e has joined = (tt, ap (char_then c) joined)

split_on-join_words :
    (s : String) → HasWord (split_on underscore s) × (join_words (split_on underscore s) ≡ s)
unfolding split_on join_words
split_on-join_words empty = (tt, refl)
split_on-join_words (char_then c s) =
    let rest = split_on-join_words s in
    begin_word-join_words (is_char underscore c) c s (split_on underscore s) refl rest.0 rest.1

-- The words of an order text: joined by underscores they are the text, and they are read as orders.
abbrev pub IsOrders : String → List OrderClause → Type 0
IsOrders order_body orders =
    (words : List String) × (order_body ≡ join_words words) × Written words orders

pub parse_order-IsOrders :
    (order_body : String) → IsOrders order_body (parse_order [] (split_on underscore order_body))
parse_order-IsOrders order_body = (
  split_on underscore order_body,
  sym (split_on-join_words order_body).1,
  parse_order-Written [] (split_on underscore order_body) tt,
)
