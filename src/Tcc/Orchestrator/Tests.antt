-- ===== src/Tcc/Orchestrator/Tests.antt =====
-- Transactions of three participants, one of them optional.
use pyfly.Common.{ℕ, String, Bool, true, false, ◌≡◌, refl, some, [], ◌∷◌, Dict}
use pyfly.Common.Effects.{external, ok, err, World}
use pyfly.Tcc.Definitions.{trying, confirm, cancel, Method, ParticipantDefinition, TccContext}
use pyfly.Tcc.Orchestrator.{Event, called, slept, execute}
use pyfly.Tcc.Orchestrator.Outcomes.{Ending, execute-Ending}
use pyfly.Common.{str_eq, if◌then◌else◌}

abbrev once : Method
once = record { retry = 0; timeout_ms = 0; backoff_ms = 0 }

abbrev twice : Method
twice = record { retry = 2; timeout_ms = 500; backoff_ms = 10 }

abbrev participant : String → Bool → ParticipantDefinition
participant id optional = record {
  id = id;
  order = 0;
  timeout_ms = 0;
  optional = optional;
  try_method = some once;
  confirm_method = some twice;
  cancel_method = some once;
}

abbrev transfer : Dict ParticipantDefinition
transfer =
    ("debit", participant "debit" false)
    ∷ ("audit", participant "audit" true)
    ∷ ("credit", participant "credit" false)
    ∷ []

abbrev fresh : TccContext ℕ
fresh = record { try_results = []; current_phase = trying; participant_statuses = [] }

-- The audit cannot be tried, and the credit cannot be confirmed.
abbrev flaky : World Event ℕ
flaky h (called trying id attempt timeout_ms) = if str_eq id "audit" then err (external 1) else ok 5
flaky h (called confirm id attempt timeout_ms) =
    if str_eq id "credit" then err (external 2) else ok 0
flaky h (called cancel id attempt timeout_ms) = ok 0
flaky h (slept ms) = ok 0

-- After the failed CONFIRM of the credit, the debit is cancelled although it was confirmed.
confirmed_is_cancelled :
    (execute flaky transfer fresh).history
    ≡ called trying "debit" 1 0
      ∷ called trying "audit" 1 0
      ∷ called trying "credit" 1 0
      ∷ called confirm "debit" 1 500
      ∷ called confirm "credit" 1 500
      ∷ slept 10
      ∷ called confirm "credit" 2 500
      ∷ called cancel "credit" 1 0
      ∷ called cancel "debit" 1 0
      ∷ []
unfolding execute
confirmed_is_cancelled = refl

execute-Ending_example : Ending flaky transfer (execute flaky transfer fresh)
execute-Ending_example = execute-Ending flaky transfer (refl, (refl, (refl, tt))) fresh
