-- ===== src/Cqrs/ValidationResult.antt =====
-- cqrs/validation/types.py: the results of validations.
use pyfly.Common.{String, Bool, true, false, ◌&&◌, List, [], ◌∷◌, ◌++◌}

pub record ValidationError : Type 0 where
  pub field_name : String
  pub message : String
  pub error_code : String

pub record ValidationResult : Type 0 where
  pub valid : Bool
  pub errors : List ValidationError

abbrev pub success : ValidationResult
success = record { valid = true; errors = [] }

abbrev pub failure : (field_name message : String) → ValidationResult
failure field_name message = record {
  valid = false;
  errors =
      record { field_name = field_name; message = message; error_code = "VALIDATION_ERROR" } ∷ [];
}

abbrev pub from_errors : List ValidationError → ValidationResult
from_errors [] = success
from_errors (e ∷ errors) = record { valid = false; errors = e ∷ errors }

abbrev pub combine : ValidationResult → ValidationResult → ValidationResult
combine r other = record { valid = r.valid && other.valid; errors = r.errors ++ other.errors }
