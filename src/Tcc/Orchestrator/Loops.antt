-- ===== src/Tcc/Orchestrator/Loops.antt =====
-- Rules for the loops of the TRY and the CONFIRM phase.
use pyfly.Common.{
  String, true, false, ◌≡◌, refl, none, some, List, [], ◌∷◌, ◌++◌, append_assoc, append-nil, mem,
  inl, inr, Bool-cases, arith,
}
use pyfly.Common.Effects.{Exception, ok, err, Result-cases, World}
use pyfly.Tcc.Definitions.{
  trying, confirm, ParticipantDefinition, TccContext, set_try_result, set_participant_status,
}
use pyfly.Tcc.Orchestrator.{
  Event, PhaseRun, invoke_with_retry_and_timeout, try_phase, confirm_phase,
}

-- An invariant of the participants before, those to come, the context, the tried ids, the history.
abbrev pub Invariant : Type 0 → Type 1
Invariant V =
    List ParticipantDefinition
    → List ParticipantDefinition
    → TccContext V
    → List String
    → List Event
    → Type 0

module _ {V : Type 0} (world : World Event V) (p : ParticipantDefinition)
    (ps : List ParticipantDefinition) (ctx : TccContext V) (tried : List String) (h : List Event)
    {e : Exception} (bad : (invoke_with_retry_and_timeout world trying p h).0 ≡ err e) where
  try_phase-skip :
      p.optional ≡ true
      → try_phase world (p ∷ ps) ctx tried h
        ≡ try_phase world ps ctx tried (invoke_with_retry_and_timeout world trying p h).1
  unfolding try_phase
  try_phase-skip skipped = ground (arith, bad, skipped)

  try_phase-stop :
      p.optional ≡ false
      → try_phase world (p ∷ ps) ctx tried h ≡ record {
        failed = some p.id;
        ctx = ctx;
        tried = tried;
        history = (invoke_with_retry_and_timeout world trying p h).1;
      }
  unfolding try_phase
  try_phase-stop mandatory = ground (arith, bad, mandatory)

module _ {V : Type 0} (world : World Event V) (P : Invariant V) where
  pub record TryRule : Type 0 where
    pub succeed :
        (done rest : List ParticipantDefinition) (p : ParticipantDefinition) (ctx : TccContext V)
        (tried : List String) (h : List Event) (v : V)
        → P done (p ∷ rest) ctx tried h
        → (invoke_with_retry_and_timeout world trying p h).0 ≡ ok v
        → P
            (done ++ p ∷ [])
            rest
            (set_participant_status p.id trying (set_try_result p.id v ctx))
            (tried ++ p.id ∷ [])
            (invoke_with_retry_and_timeout world trying p h).1
    pub skip :
        (done rest : List ParticipantDefinition) (p : ParticipantDefinition) (ctx : TccContext V)
        (tried : List String) (h : List Event)
        → P done (p ∷ rest) ctx tried h
        → p.optional ≡ true
        → (e : Exception) → (invoke_with_retry_and_timeout world trying p h).0 ≡ err e
        → P (done ++ p ∷ []) rest ctx tried (invoke_with_retry_and_timeout world trying p h).1

  -- A phase comes to the end of its list, or stops at a participant.
  pub data PhaseEnd (all : List ParticipantDefinition) (run : PhaseRun V)
      (Stop : ParticipantDefinition → List Event → Type 0) : Type 0 where
    finished : run.failed ≡ none → P all [] run.ctx run.tried run.history → PhaseEnd all run Stop
    stopped :
        (done rest : List ParticipantDefinition) (p : ParticipantDefinition) (h : List Event)
        → all ≡ done ++ p ∷ rest
        → run.failed ≡ some p.id
        → P done (p ∷ rest) run.ctx run.tried h
        → Stop p h
        → PhaseEnd all run Stop

  abbrev pub TryStop : PhaseRun V → ParticipantDefinition → List Event → Type 0
  TryStop run p h =
      (run.history ≡ (invoke_with_retry_and_timeout world trying p h).1)
      × (p.optional ≡ false)
      × ((e : Exception) × ((invoke_with_retry_and_timeout world trying p h).0 ≡ err e))

  abbrev pub ConfirmStop : PhaseRun V → ParticipantDefinition → List Event → Type 0
  ConfirmStop run p h =
      (run.history ≡ (invoke_with_retry_and_timeout world confirm p h).1)
      × (mem p.id run.tried ≡ true)
      × ((e : Exception) × ((invoke_with_retry_and_timeout world confirm p h).0 ≡ err e))

  module _ (rule : TryRule) where
    pub try_phase_ind :
        (done ps : List ParticipantDefinition) (ctx : TccContext V) (tried : List String)
        (h : List Event)
        → P done ps ctx tried h
        → PhaseEnd
            (done ++ ps)
            (try_phase world ps ctx tried h)
            (TryStop (try_phase world ps ctx tried h))
    unfolding try_phase
    try_phase_ind done [] ctx tried h inv = finished refl (rw append-nil inv)
    try_phase_ind done (p ∷ ps) ctx tried h inv =
        let (r, h') = invoke_with_retry_and_timeout world trying p h in
        elim (Result-cases r) [
          | inl (v, good) ↦
              rw (good, try_phase)
                (rw append_assoc at (
                  try_phase_ind (done ++ p ∷ []) ps
                    (set_participant_status p.id trying (set_try_result p.id v ctx))
                    (tried ++ p.id ∷ []) h' (rule.succeed done ps p ctx tried h v inv good)))
          | inr (e, bad) ↦ elim (Bool-cases p.optional) [
            | inl skipped ↦ rw (try_phase-skip world p ps ctx tried h bad skipped) (
                rw append_assoc at (
                  try_phase_ind (done ++ p ∷ []) ps ctx tried h'
                    (rule.skip done ps p ctx tried h inv skipped e bad)))
            | inr mandatory ↦
                rw (try_phase-stop world p ps ctx tried h bad mandatory)
                  (stopped done ps p h refl refl inv (refl, mandatory, (e, bad)))
          ]
        ]

  pub record ConfirmRule : Type 0 where
    pub succeed :
        (done rest : List ParticipantDefinition) (p : ParticipantDefinition) (ctx : TccContext V)
        (tried : List String) (h : List Event)
        → P done (p ∷ rest) ctx tried h
        → (v : V) → (invoke_with_retry_and_timeout world confirm p h).0 ≡ ok v
        → P
            (done ++ p ∷ [])
            rest
            (set_participant_status p.id confirm ctx)
            tried
            (invoke_with_retry_and_timeout world confirm p h).1
    pub skip :
        (done rest : List ParticipantDefinition) (p : ParticipantDefinition) (ctx : TccContext V)
        (tried : List String) (h : List Event)
        → P done (p ∷ rest) ctx tried h
        → mem p.id tried ≡ false
        → P (done ++ p ∷ []) rest ctx tried h

  module _ (rule : ConfirmRule) where
    pub confirm_phase_ind :
        (done ps : List ParticipantDefinition) (ctx : TccContext V) (tried : List String)
        (h : List Event)
        → P done ps ctx tried h
        → PhaseEnd
            (done ++ ps)
            (confirm_phase world ps ctx tried h)
            (ConfirmStop (confirm_phase world ps ctx tried h))
    unfolding confirm_phase
    confirm_phase_ind done [] ctx tried h inv = finished refl (rw append-nil inv)
    confirm_phase_ind done (p ∷ ps) ctx tried h inv =
        let (r, h') = invoke_with_retry_and_timeout world confirm p h in
        elim (Bool-cases (mem p.id tried)) [
          | inr absent ↦
              rw (absent, confirm_phase)
                (rw append_assoc at (
                  confirm_phase_ind (done ++ p ∷ []) ps ctx tried h
                    (rule.skip done ps p ctx tried h inv absent)))
          | inl member ↦ elim (Result-cases r) [
            | inl (v, good) ↦
                rw (member, good, confirm_phase)
                  (rw append_assoc at (
                    confirm_phase_ind (done ++ p ∷ []) ps (set_participant_status p.id confirm ctx)
                      tried h' (rule.succeed done ps p ctx tried h inv v good)))
            | inr (e, bad) ↦
                rw (member, bad, confirm_phase)
                  (stopped done ps p h refl refl inv (refl, member, (e, bad)))
          ]
        ]
