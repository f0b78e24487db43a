-- ===== src/Tcc/Definitions.antt =====
-- tcc/core and tcc/registry: phases, participants and the context. A method is its metadata, and
-- running it is an event. Durations are in milliseconds.
use pyfly.Common.{ℕ, String, Bool, true, false, Option, Dict, insert, lookup}

pub data TccPhase : Type 0 where
  trying confirm cancel : TccPhase

abbrev pub same_phase : TccPhase → TccPhase → Bool
same_phase trying trying = true
same_phase confirm confirm = true
same_phase cancel cancel = true
same_phase _ _ = false

-- The `__pyfly_*_method__` metadata of one phase method.
pub record Method : Type 0 where
  pub retry : ℕ
  pub timeout_ms : ℕ
  pub backoff_ms : ℕ

pub record ParticipantDefinition : Type 0 where
  pub id : String
  pub order : ℕ
  pub timeout_ms : ℕ
  pub optional : Bool
  pub try_method : Option Method
  pub confirm_method : Option Method
  pub cancel_method : Option Method

pub record TccContext (V : Type 0) : Type 0 where
  pub try_results : Dict V
  pub current_phase : TccPhase
  pub participant_statuses : Dict TccPhase

module _ {V : Type 0} where
  unfoldable pub set_try_result : String → V → TccContext V → TccContext V
  unfolding insert
  set_try_result participant_id result ctx = record ctx {
    try_results = insert participant_id result ctx.try_results;
  }

  unfoldable pub get_try_result : String → TccContext V → Option V
  unfolding lookup
  get_try_result participant_id ctx = lookup participant_id ctx.try_results

  unfoldable pub set_phase : TccPhase → TccContext V → TccContext V
  set_phase phase ctx = record ctx { current_phase = phase }

  unfoldable pub set_participant_status : String → TccPhase → TccContext V → TccContext V
  unfolding insert
  set_participant_status participant_id phase ctx = record ctx {
    participant_statuses = insert participant_id phase ctx.participant_statuses;
  }

-- _get_phase_method
unfoldable pub phase_method : ParticipantDefinition → TccPhase → Option Method
phase_method p_def trying = p_def.try_method
phase_method p_def confirm = p_def.confirm_method
phase_method p_def cancel = p_def.cancel_method
