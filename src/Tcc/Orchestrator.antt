-- ===== src/Tcc/Orchestrator.antt =====
-- transactional/tcc/engine/execution_orchestrator.py, with participant_invoker.py: the coordinator
-- of the three phases. A timeout is an exception that the world answers to a call.
mod Starts
mod Answers
mod Attempts
mod Loops
mod Phases
mod Members
pub mod Outcomes
mod Tests
use pyfly.Common.{
  ℕ, zero, suc, ◌+◌, ◌-◌, ◌*◌, max, String, Bool, true, false, Option, none, some, List, [], ◌∷◌,
  ◌++◌, reverse, Dict, lookup, mem, ltb, ◌==◌, if◌then◌else◌,
}
use pyfly.Common.Effects.{
  Exception, value_error, key_error, Result, ok, err, World, Act, pure, raise, perform, ◌>>=◌, ◌>>◌,
  try_except, when,
}
use pyfly.Tcc.Definitions.{
  TccPhase, trying, confirm, cancel, Method, ParticipantDefinition, TccContext, set_try_result,
  set_phase, set_participant_status, phase_method,
}

-- The call of a phase method, with the number of the attempt and the timeout, 0 for none; a sleep.
pub data Event : Type 0 where
  called : TccPhase → String → (attempt timeout_ms : ℕ) → Event
  slept : ℕ → Event

-- `meta.get("timeout_ms", 0) or p_def.timeout_ms`
abbrev pub timeout_of : Option Method → ParticipantDefinition → ℕ
timeout_of none p_def = p_def.timeout_ms
timeout_of (some m) p_def = if m.timeout_ms == 0 then p_def.timeout_ms else m.timeout_ms

-- `max(meta.get("retry", 0), 1)`
abbrev pub retries_of : Option Method → ℕ
retries_of none = 1
retries_of (some m) = max m.retry 1

abbrev pub backoff_of : Option Method → ℕ
backoff_of none = 0
backoff_of (some m) = m.backoff_ms

-- What a phase leaves: the participant that failed, if any, the context, and who completed TRY.
pub record PhaseRun (V : Type 0) : Type 0 where
  pub failed : Option String
  pub ctx : TccContext V
  pub tried : List String
  pub history : List Event

pub record CancelRun (V : Type 0) : Type 0 where
  pub outcome : Result (Unit {0})
  pub ctx : TccContext V
  pub history : List Event

-- What `execute` returns or raises, and what it leaves behind.
pub record TccRun (V : Type 0) : Type 0 where
  pub result : Result (Bool × Option String)
  pub ctx : TccContext V
  pub tried : List String
  pub history : List Event

-- list(tcc_def.participants.values())
unfoldable pub participants_of : Dict ParticipantDefinition → List ParticipantDefinition
participants_of [] = []
participants_of ((pid, p_def) ∷ rest) = p_def ∷ participants_of rest

-- A failed cancellation is only logged.
abbrev pub after_cancel : {V : Type 0} → String → Result V → TccContext V → TccContext V
after_cancel pid (ok _) ctx = set_participant_status pid cancel ctx
after_cancel pid (err exc) ctx = ctx

module _ {V : Type 0} (world : World Event V) where
  -- invoke_try, invoke_confirm, invoke_cancel
  unfoldable pub invoke : TccPhase → ParticipantDefinition → ℕ → Act Event V
  unfolding phase_method
  invoke phase p_def attempt =
      let method = phase_method p_def phase in
      elim method [
        | none ↦ raise value_error
        | some m ↦ perform world (called phase p_def.id attempt (timeout_of (some m) p_def))
      ]

  -- The attempts from number `attempt` on, of which `left` may follow the first.
  unfoldable pub attempts :
      TccPhase → ParticipantDefinition → (left attempt backoff_ms : ℕ) → Act Event V
  unfolding invoke
  attempts phase p_def zero attempt backoff_ms = invoke phase p_def attempt
  attempts phase p_def (suc left) attempt backoff_ms = try_except (invoke phase p_def attempt) λ _.
      do
        when (ltb 0 backoff_ms) (do perform world (slept backoff_ms); pure tt)
        attempts phase p_def left (attempt + 1) (backoff_ms * 2)

  unfoldable pub invoke_with_retry_and_timeout : TccPhase → ParticipantDefinition → Act Event V
  unfolding attempts phase_method
  invoke_with_retry_and_timeout phase p_def =
      let method = phase_method p_def phase in
      attempts phase p_def (retries_of method - 1) 1 (backoff_of method)

  -- The loop of the TRY phase.
  unfoldable pub try_phase :
      List ParticipantDefinition → TccContext V → List String → List Event → PhaseRun V
  unfolding invoke_with_retry_and_timeout set_try_result set_participant_status
  try_phase [] ctx tried h = record { failed = none; ctx = ctx; tried = tried; history = h }
  try_phase (p_def ∷ rest) ctx tried h =
      let (r, h') = invoke_with_retry_and_timeout trying p_def h in
      elim r [
        | ok result ↦
            try_phase rest
              (set_participant_status p_def.id trying (set_try_result p_def.id result ctx))
              (tried ++ p_def.id ∷ []) h'
        | err exc ↦ elim p_def.optional [
          | true ↦ try_phase rest ctx tried h'
          | false ↦ record { failed = some p_def.id; ctx = ctx; tried = tried; history = h' }
        ]
      ]

  -- The loop of the CONFIRM phase.
  unfoldable pub confirm_phase :
      List ParticipantDefinition → TccContext V → List String → List Event → PhaseRun V
  unfolding invoke_with_retry_and_timeout set_participant_status mem
  confirm_phase [] ctx tried h = record { failed = none; ctx = ctx; tried = tried; history = h }
  confirm_phase (p_def ∷ rest) ctx tried h = elim (mem p_def.id tried) [
    | false ↦ confirm_phase rest ctx tried h
    | true ↦
        let (r, h') = invoke_with_retry_and_timeout confirm p_def h in
        elim r [
          | ok _ ↦ confirm_phase rest (set_participant_status p_def.id confirm ctx) tried h'
          | err exc ↦ record { failed = some p_def.id; ctx = ctx; tried = tried; history = h' }
        ]
  ]

  -- `_cancel_participants`, on the reversed ids; a missing id is a KeyError.
  unfoldable pub cancel_participants :
      Dict ParticipantDefinition → List String → TccContext V → List Event → CancelRun V
  unfolding invoke_with_retry_and_timeout set_participant_status lookup
  cancel_participants participants [] ctx h = record { outcome = ok tt; ctx = ctx; history = h }
  cancel_participants participants (pid ∷ ids) ctx h = elim (lookup pid participants) [
    | none ↦ record { outcome = err key_error; ctx = ctx; history = h }
    | some p_def ↦ elim p_def.cancel_method [
      | none ↦ cancel_participants participants ids ctx h
      | some _ ↦
          let (r, h') = invoke_with_retry_and_timeout cancel p_def h in
          cancel_participants participants ids (after_cancel pid r ctx) h'
    ]
  ]

  -- The CANCEL phase after the failure of `failed_participant_id`.
  unfoldable pub cancel_all : Dict ParticipantDefinition → String → PhaseRun V → TccRun V
  unfolding cancel_participants set_phase
  cancel_all participants failed_participant_id run =
      let c =
        cancel_participants participants (reverse run.tried) (set_phase cancel run.ctx)
          run.history in
      record {
        result = elim c.outcome [
          | ok _ ↦ ok (false, some failed_participant_id)
          | err exc ↦ err exc
        ];
        ctx = c.ctx;
        tried = run.tried;
        history = c.history;
      }

  -- The end of `execute` after the CONFIRM phase.
  unfoldable pub after_confirm : Dict ParticipantDefinition → PhaseRun V → TccRun V
  unfolding cancel_all
  after_confirm participants confirmed = elim confirmed.failed [
    | some failed_participant_id ↦ cancel_all participants failed_participant_id confirmed
    | none ↦ record {
      result = ok (true, none);
      ctx = confirmed.ctx;
      tried = confirmed.tried;
      history = confirmed.history;
    }
  ]

  -- The phases after TRY.
  unfoldable pub conclude : Dict ParticipantDefinition → PhaseRun V → TccRun V
  unfolding confirm_phase after_confirm cancel_all set_phase participants_of
  conclude participants run = elim run.failed [
    | some failed_participant_id ↦ cancel_all participants failed_participant_id run
    | none ↦ after_confirm participants (
        confirm_phase (participants_of participants) (set_phase confirm run.ctx) run.tried
          run.history)
  ]

  unfoldable pub execute : Dict ParticipantDefinition → TccContext V → TccRun V
  unfolding try_phase conclude set_phase participants_of
  execute participants ctx =
      conclude participants (try_phase (participants_of participants) (set_phase trying ctx) [] [])
