-- ===== src/Queries/Parser.antt =====
-- data/query_parser.py: the parser of method names.
use Prim.Native.Char.{Char, char}
use Prim.Native.String.{[] as empty, ◌∷◌ as char_then}
use pyfly.Common.{
  ℕ, zero, suc, String, Option, none, some, List, [], ◌∷◌, ◌++◌, str_eq, if◌then◌else◌,
}
use pyfly.Common.Effects.{value_error, Result, ok, err}
use pyfly.Common.Texts.{cat, strip_prefix, strip_suffix, split_on}

pub data Operator : Type 0 where
  gte lte gt lt is_not_null is_null containing between not like in_list eq : Operator

pub data Connector : Type 0 where
  and or : Connector

pub data Direction : Type 0 where
  asc desc : Direction

pub data Prefix : Type 0 where
  find_by count_by exists_by delete_by : Prefix

pub record FieldPredicate : Type 0 where
  pub field_name : String
  pub operator : Operator

pub record OrderClause : Type 0 where
  pub field_name : String
  pub direction : Direction

pub record ParsedQuery : Type 0 where
  pub prefix : Prefix
  pub predicates : List FieldPredicate
  pub connectors : List Connector
  pub order_clauses : List OrderClause

-- OPERATORS; `eq` has no suffix.
abbrev pub suffix_of : Operator → String
suffix_of gte = "_greater_than_equal"
suffix_of lte = "_less_than_equal"
suffix_of gt = "_greater_than"
suffix_of lt = "_less_than"
suffix_of is_not_null = "_is_not_null"
suffix_of is_null = "_is_null"
suffix_of containing = "_containing"
suffix_of between = "_between"
suffix_of not = "_not"
suffix_of like = "_like"
suffix_of in_list = "_in"
suffix_of eq = ""

abbrev pub operators : List Operator
operators =
    gte ∷ lte ∷ gt ∷ lt ∷ is_not_null ∷ is_null ∷ containing ∷ between ∷ not ∷ like ∷ in_list ∷ []

abbrev pub text_of_prefix : Prefix → String
text_of_prefix find_by = "find_by_"
text_of_prefix count_by = "count_by_"
text_of_prefix exists_by = "exists_by_"
text_of_prefix delete_by = "delete_by_"

abbrev pub with_operator : Operator → FieldPredicate → Option String → FieldPredicate
with_operator op rest none = rest
with_operator op rest (some field_name) = record { field_name = field_name; operator = op }

-- The loop of `_parse_single_predicate`.
unfoldable pub parse_single_predicate : List Operator → String → FieldPredicate
unfolding strip_suffix
parse_single_predicate [] segment = record { field_name = segment; operator = eq }
parse_single_predicate (op ∷ ops) segment =
    let rest = parse_single_predicate ops segment in
    with_operator op rest (strip_suffix (suffix_of op) segment)

-- What re.split makes of a body: the first segment, and the others after their connectors.
pub record Split : Type 0 where
  pub first : String
  pub others : List (Connector × String)

abbrev pub text_of_connector : Connector → String
text_of_connector and = "_and_"
text_of_connector or = "_or_"

-- The connector at the beginning of a text, if there is one, and how many characters follow its first.
abbrev pub either : Option String → Option String → Option (Connector × ℕ)
either (some _) _ = some (and, 4)
either none (some _) = some (or, 3)
either none none = none

unfoldable pub connector_at : String → Option (Connector × ℕ)
unfolding strip_prefix
connector_at s = either (strip_prefix "_and_" s) (strip_prefix "_or_" s)

abbrev pub left_of : Option (Connector × ℕ) → ℕ
left_of none = 0
left_of (some (connector, left)) = left

abbrev pub attach : Option (Connector × ℕ) → Char → Split → Split
attach none c rest = record rest { first = char_then c rest.first }
attach (some (connector, left)) c rest = record {
  first = empty;
  others = (connector, rest.first) ∷ rest.others;
}

-- `skipped` characters of a connector are still to be passed over.
unfoldable pub split : (skipped : ℕ) → String → Split
unfolding connector_at
split skipped empty = record { first = empty; others = [] }
split (suc skipped) (char_then c s) = split skipped s
split zero (char_then c s) =
    let found = connector_at (char_then c s) in attach found c (split (left_of found) s)

unfoldable pub connectors_of : List (Connector × String) → List Connector
connectors_of [] = []
connectors_of ((connector, segment) ∷ others) = connector ∷ connectors_of others

unfoldable pub predicates_of : List (Connector × String) → List FieldPredicate
unfolding parse_single_predicate
predicates_of [] = []
predicates_of ((connector, segment) ∷ others) =
    parse_single_predicate operators segment ∷ predicates_of others

unfoldable pub parse_predicates : String → List FieldPredicate × List Connector
unfolding split connectors_of predicates_of
parse_predicates empty = ([], [])
parse_predicates (char_then c s) =
    let parts = split 0 (char_then c s) in
    (
      parse_single_predicate operators parts.first ∷ predicates_of parts.others,
      connectors_of parts.others,
    )

abbrev pub underscore : Char
underscore = char 95 tt

abbrev pub direction_of : String → Option Direction
direction_of part =
    if str_eq part "asc" then some asc else if str_eq part "desc" then some desc else none

-- "_".join(field_parts)
unfoldable pub join_words : List String → String
unfolding cat
join_words [] = empty
join_words (word ∷ []) = word
join_words (word ∷ word' ∷ words) = cat word (char_then underscore (join_words (word' ∷ words)))

abbrev pub clause_of : String → Direction → List OrderClause
clause_of empty direction = []
clause_of (char_then c s) direction =
    record { field_name = char_then c s; direction = direction } ∷ []

-- The loops of `_parse_order`, with the parts of the field that have been read.
unfoldable pub parse_order : (field_parts parts : List String) → List OrderClause
unfolding join_words
parse_order field_parts [] = clause_of (join_words field_parts) asc
parse_order field_parts (part ∷ parts) = elim (direction_of part) [
  | none ↦ parse_order (field_parts ++ part ∷ []) parts
  | some direction ↦ clause_of (join_words field_parts) direction ++ parse_order [] parts
]

abbrev pub not_empty : Option String → Option String
not_empty none = none
not_empty (some empty) = none
not_empty (some (char_then c s)) = some (char_then c s)

abbrev pub choose_order : Char → Option String → Option (String × String) → Option (String × String)
choose_order c (some order_body) rest = some (empty, order_body)
choose_order c none none = none
choose_order c none (some (body, order_body)) = some (char_then c body, order_body)

-- re.search(r"_order_by_(.+)$", body): what stands before the match, and its group
unfoldable pub search_order : String → Option (String × String)
unfolding strip_prefix
search_order empty = none
search_order (char_then c s) =
    choose_order c (not_empty (strip_prefix "_order_by_" (char_then c s))) (search_order s)

unfoldable pub body_and_orders : String → Option (String × String) → String × List OrderClause
unfolding parse_order split_on
body_and_orders body none = (body, [])
body_and_orders body (some (before, order_body)) =
    (before, parse_order [] (split_on underscore order_body))

unfoldable pub query_of : Prefix → String × List OrderClause → ParsedQuery
unfolding parse_predicates
query_of prefix (body, order_clauses) =
    let (predicates, connectors) = parse_predicates body in
    record {
      prefix = prefix;
      predicates = predicates;
      connectors = connectors;
      order_clauses = order_clauses;
    }

unfoldable pub parse_body : Prefix → String → ParsedQuery
unfolding query_of search_order body_and_orders
parse_body prefix body = query_of prefix (body_and_orders body (search_order body))

abbrev pub prefixes : List Prefix
prefixes = find_by ∷ count_by ∷ exists_by ∷ delete_by ∷ []

unfoldable pub with_prefix : Prefix → Result ParsedQuery → Option String → Result ParsedQuery
unfolding parse_body
with_prefix p rest none = rest
with_prefix p rest (some body) = ok (parse_body p body)

-- The loop of `parse` over the prefixes.
unfoldable pub parse_from : List Prefix → String → Result ParsedQuery
unfolding strip_prefix with_prefix
parse_from [] method_name = err value_error
parse_from (p ∷ ps) method_name =
    let rest = parse_from ps method_name in
    with_prefix p rest (strip_prefix (text_of_prefix p) method_name)

unfoldable pub parse : String → Result ParsedQuery
unfolding parse_from
parse method_name = parse_from prefixes method_name
