-- ===== src/Tcc/Orchestrator/Outcomes.antt =====
-- How a TCC transaction can end.
use pyfly.Common.{
  String, true, false, ◌≡◌, refl, sym, ◌∙◌, none, some, List, [], ◌∷◌, ◌++◌, append-nil, ap, subst,
  Dict, mem, reverse, ◌⊎◌, inl, inr, arith,
}
use pyfly.Common.Effects.{Exception, ok, err, World}
use pyfly.Tcc.Definitions.{
  TccPhase, trying, confirm, cancel, ParticipantDefinition, TccContext, set_phase, phase_method,
}
use pyfly.Tcc.Orchestrator.{
  Event, PhaseRun, TccRun, invoke_with_retry_and_timeout, participants_of, cancel_all,
  after_confirm, conclude, execute,
}
use pyfly.Tcc.Orchestrator.Starts.{starts, starts-invoke}
use pyfly.Tcc.Orchestrator.Answers.{Extends, answered, answered-Extends}
use pyfly.Tcc.Orchestrator.Attempts.{
  invoke-Extends, answered-invoke_err, cancel_participants-Extends,
}
use pyfly.Tcc.Orchestrator.Loops.{
  PhaseEnd, TryStop, ConfirmStop, finished, stopped, try_phase_ind, confirm_phase_ind,
}
use pyfly.Tcc.Orchestrator.Phases.{
  ids_of, ids_of-append, mem-append, MandatoryIn, Trying, Trying-rule, Confirming, Confirming-rule,
  cancellable, Found, cancel_participants-all,
}
use pyfly.Tcc.Orchestrator.Members.{
  Keyed, AllConfirmed, found-id, Found-of, Found-reverse, confirmed-mandatory, mandatory-returned,
}

module _ {V : Type 0} (world : World Event V) (participants : Dict ParticipantDefinition) where
  -- What went wrong: the call of the TRY of a participant that is not optional, or of the CONFIRM of
  -- one whose TRY returned, raised at last; from then on only cancel methods are called.
  pub record Failure (failed : String) (history : List Event) : Type 0 where
    pub phase : TccPhase
    pub done : List ParticipantDefinition
    pub participant : ParticipantDefinition
    pub rest : List ParticipantDefinition
    pub before : List Event
    pub exc : Exception
    pub listed : participants_of participants ≡ done ++ participant ∷ rest
    pub named : participant.id ≡ failed
    pub reason :
        ((phase ≡ trying) × (participant.optional ≡ false))
        ⊎ ((phase ≡ confirm)
            × (mem participant.id (answered world trying [] history) ≡ true)
            × MandatoryIn (answered world trying [] history) (participants_of participants))
    pub raised : (invoke_with_retry_and_timeout world phase participant before).0 ≡ err exc
    pub last :
        Extends cancel (invoke_with_retry_and_timeout world phase participant before).1 history

  pub data Ending (run : TccRun V) : Type 0 where
    committed :
        run.result ≡ ok (true, none)
        → run.ctx.current_phase ≡ confirm
        → starts cancel run.history ≡ []
        → MandatoryIn (answered world confirm [] run.history) (participants_of participants)
        → AllConfirmed run.ctx (participants_of participants)
        → Ending run
    rolled_back :
        (failed : String)
        → run.result ≡ ok (false, some failed)
        → run.ctx.current_phase ≡ cancel
        → Failure failed run.history
        → starts cancel run.history
          ≡ cancellable participants (reverse (answered world trying [] run.history))
        → (starts confirm run.history ≡ [])
          ⊎ MandatoryIn (answered world trying [] run.history) (participants_of participants)
        → Ending run

module _ {V : Type 0} (world : World Event V) (participants : Dict ParticipantDefinition)
    (keyed : Keyed participants) where
  -- After a failure, whoever completed TRY is cancelled.
  cancel_all-Ending :
      (failed : String) (run : PhaseRun V)
      → starts cancel run.history ≡ []
      → Found participants run.tried
      → answered world trying [] run.history ≡ run.tried
      → ((history : List Event)
          → answered world trying [] history ≡ run.tried
          → Extends cancel run.history history
          → Failure world participants failed history)
      → (starts confirm run.history ≡ []) ⊎ MandatoryIn run.tried (participants_of participants)
      → Ending world participants (cancel_all world participants failed run)
  unfolding cancel_all set_phase
  cancel_all-Ending failed run clean found returned failure mandatory =
      let (ended, starts_all, phase, same_confirm) =
        cancel_participants-all world participants (reverse run.tried) (set_phase cancel run.ctx)
          run.history (Found-reverse participants run.tried found) in
      let only =
        cancel_participants-Extends world participants (reverse run.tried)
          (set_phase cancel run.ctx) run.history in
      let same = answered-Extends world trying cancel run.history _ refl only ∙ returned in
      rolled_back failed (ground (arith, ended)) phase (failure _ same only)
        (rw clean at starts_all ∙ ap (λ l. cancellable participants (reverse l)) (sym same))
        (elim mandatory [
          | inl unconfirmed ↦ inl (same_confirm ∙ unconfirmed)
          | inr all ↦ inr (subst (λ l. MandatoryIn l (participants_of participants)) (sym same) all)
        ])

  Found-tried :
      (done rest : List ParticipantDefinition) (tried : List String)
      → participants_of participants ≡ done ++ rest
      → ((id : String) → mem id tried ≡ true → mem id (ids_of done) ≡ true)
      → Found participants tried
  Found-tried done rest tried whole known =
      Found-of participants tried
        λ id m. found-id participants id keyed (rw (whole, ids_of-append, mem-append, known id m))

  -- After the CONFIRM phase over whom TRY completed.
  confirmed-Ending :
      (run c : PhaseRun V)
      → Trying world (participants_of participants) [] run.ctx run.tried run.history
      → PhaseEnd world
          (Confirming world run.tried)
          (participants_of participants)
          c
          (ConfirmStop world (Confirming world run.tried) c)
      → Ending world participants (after_confirm world participants c)
  unfolding after_confirm phase_method
  confirmed-Ending run c inv (finished succeeded cinv) =
      let mandatory : MandatoryIn c.tried (participants_of participants) =
        rw cinv.same_tried inv.mandatory in
      rw (succeeded, after_confirm)
        (committed refl cinv.in_confirm cinv.no_cancel
          (mandatory-returned c.tried (answered world confirm [] c.history)
            (participants_of participants) mandatory cinv.returned)
          (confirmed-mandatory c.ctx c.tried (participants_of participants) mandatory
            cinv.confirmed))
  confirmed-Ending run c inv (stopped done rest p h whole failed cinv (last, tried, (e, bad))) =
      let mandatory : MandatoryIn c.tried (participants_of participants) =
        rw cinv.same_tried inv.mandatory in
      rw (failed, after_confirm)
        (cancel_all-Ending p.id c
          (rw last (starts-invoke world cancel confirm p h ∙ ground (arith, cinv.no_cancel)))
          (rw cinv.same_tried (
            Found-tried (participants_of participants) [] run.tried (sym (append-nil _)) inv.known))
          (ap (answered world trying []) last
            ∙ answered-Extends world trying confirm h _ refl (invoke-Extends world confirm p refl h)
            ∙ cinv.accepted)
          (λ history same only. record {
            phase = confirm;
            done = done;
            participant = p;
            rest = rest;
            before = h;
            exc = e;
            listed = whole;
            named = refl;
            reason = inr (refl, rw same tried, rw same mandatory);
            raised = bad;
            last = subst (λ k. Extends cancel k history) last only;
          })
          (inr mandatory))

  conclude-Ending :
      (run : PhaseRun V)
      → PhaseEnd world
          (Trying world)
          (participants_of participants)
          run
          (TryStop world (Trying world) run)
      → Ending world participants (conclude world participants run)
  unfolding conclude set_phase phase_method
  conclude-Ending run (stopped done rest p h whole failed inv (last, mandatory, (e, bad))) =
      rw (failed, conclude)
        (cancel_all-Ending p.id run
          (rw last (starts-invoke world cancel trying p h ∙ ground (arith, inv.no_cancel)))
          (Found-tried done (p ∷ rest) run.tried whole inv.known)
          (ap (answered world trying []) last
            ∙ answered-invoke_err world trying p refl h e bad
            ∙ inv.accepted)
          (λ history same only. record {
            phase = trying;
            done = done;
            participant = p;
            rest = rest;
            before = h;
            exc = e;
            listed = whole;
            named = refl;
            reason = inl (refl, mandatory);
            raised = bad;
            last = subst (λ k. Extends cancel k history) last only;
          })
          (inl (rw last (starts-invoke world confirm trying p h ∙ ground (arith, inv.no_confirm)))))
  conclude-Ending run (finished succeeded inv) =
      rw (succeeded, conclude)
        (confirmed-Ending run _ inv (
          confirm_phase_ind world (Confirming world run.tried) (Confirming-rule world run.tried) []
            (participants_of participants) (set_phase confirm run.ctx) run.tried run.history
            (record {
              no_cancel = inv.no_cancel;
              in_confirm = refl;
              confirmed = tt;
              returned = tt;
              same_tried = refl;
              accepted = inv.accepted;
            })))

  -- Where every participant stands under its own id, a TCC transaction ends in one of two ways and
  -- raises nothing. Either it succeeds, nothing was cancelled, and every participant that is not
  -- optional was called to CONFIRM, returned, and has reached CONFIRM. Or it names the participant
  -- that failed: the last invocation before the rollback, retries included, was of this participant
  -- and raised, and was the TRY of one that is not optional, or the CONFIRM of one whose TRY had
  -- returned. Then only cancel methods are called: each participant whose TRY returned and that has
  -- a cancel method has it started, once and in reverse order of the TRYs, whether it fails or not;
  -- and nothing was confirmed unless the TRY of every participant that is not optional had
  -- returned.
  pub execute-Ending :
      (ctx : TccContext V) → Ending world participants (execute world participants ctx)
  unfolding execute set_phase
  execute-Ending ctx = conclude-Ending _ (
      try_phase_ind world (Trying world) (Trying-rule world) [] (participants_of participants)
        (set_phase trying ctx) [] []
        (record {
          no_confirm = unfold starts in refl;
          no_cancel = unfold starts in refl;
          mandatory = tt;
          known = λ id m. unfold mem in cc;
          accepted = unfold answered in refl;
        }))
