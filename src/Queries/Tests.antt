-- ===== src/Queries/Tests.antt =====
-- The name of a repository method.
use pyfly.Common.{String, [], ◌∷◌}
use pyfly.Queries.Parser.{gte, eq, and, asc, desc, ParsedQuery, find_by}

abbrev name : String
name = "find_by_age_greater_than_equal_and_role_order_by_name_desc_id"

unfoldable query : ParsedQuery
query = record {
  prefix = find_by;
  predicates =
      (record { field_name = "age"; operator = gte })
      ∷ (record { field_name = "role"; operator = eq })
      ∷ [];
  connectors = and ∷ [];
  order_clauses =
      (record { field_name = "name"; direction = desc })
      ∷ (record { field_name = "id"; direction = asc })
      ∷ [];
}
