-- ===== src/Queries/Printing.antt =====
-- data/query_parser.py: what a method name that is parsed to a query is made of.
use Prim.Native.Char.{Char}
use Prim.Native.String.{[] as empty, ◌∷◌ as char_then}
use pyfly.Common.{ℕ, zero, suc, String, List, [], ◌∷◌, ◌≡◌, ◌⊎◌}
use pyfly.Common.Texts.{cat}
use pyfly.Queries.Parser.{
  Connector, FieldPredicate, OrderClause, ParsedQuery, Split, suffix_of, text_of_connector,
}
use pyfly.Queries.Orders.{IsOrders}

abbrev show_predicate : FieldPredicate → String
unfolding cat
show_predicate p = cat p.field_name (suffix_of p.operator)

unfoldable show_rest : List FieldPredicate → List Connector → String
unfolding cat show_predicate
show_rest [] connectors = empty
show_rest (p ∷ predicates) [] = empty
show_rest (p ∷ predicates) (connector ∷ connectors) =
    cat (text_of_connector connector) (cat (show_predicate p) (show_rest predicates connectors))

-- The predicates with their connectors, as they stand in a method name.
unfoldable pub show_predicates : List FieldPredicate → List Connector → String
unfolding show_rest
show_predicates [] connectors = empty
show_predicates (p ∷ predicates) connectors =
    cat (show_predicate p) (show_rest predicates connectors)

unfoldable drop : ℕ → String → String
drop zero s = s
drop (suc n) empty = empty
drop (suc n) (char_then c s) = drop n s

unfoldable show_others : List (Connector × String) → String
unfolding cat
show_others [] = empty
show_others ((connector, segment) ∷ others) =
    cat (text_of_connector connector) (cat segment (show_others others))

abbrev show_split : Split → String
unfolding show_others cat
show_split parts = cat parts.first (show_others parts.others)

-- What stands behind the predicates in a method name with these orders.
abbrev pub IsOrderText : String → List OrderClause → Type 0
IsOrderText text order_clauses =
    ((text ≡ "") × (order_clauses ≡ []))
    ⊎ ((order_body : String) × (text ≡ cat "_order_by_" order_body)
        × IsOrders order_body order_clauses)

-- The text of a parsed query, and what stands behind it.
abbrev pub IsTextOf : ParsedQuery → String → Type 0
IsTextOf q text =
    (order_text : String) × (text ≡ cat (show_predicates q.predicates q.connectors) order_text)
    × IsOrderText order_text q.order_clauses
