-- ===== src/Cqrs/AuthorizationResult.antt =====
-- cqrs/authorization/types.py: the decisions of authorizations.
use pyfly.Common.{String, Bool, true, ◌&&◌, List, [], ◌++◌}

pub record AuthorizationError : Type 0 where
  pub resource : String
  pub message : String

pub record AuthorizationResult : Type 0 where
  pub authorized : Bool
  pub errors : List AuthorizationError

abbrev pub success : AuthorizationResult
success = record { authorized = true; errors = [] }

abbrev pub combine : AuthorizationResult → AuthorizationResult → AuthorizationResult
combine r other = record {
  authorized = r.authorized && other.authorized;
  errors = r.errors ++ other.errors;
}
