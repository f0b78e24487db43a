-- ===== src/Tcc/Orchestrator/Phases.antt =====
-- What each phase keeps, and what the CANCEL phase starts.
use pyfly.Common.{
  String, true, false, ◌≡◌, ◌≢◌, refl, sym, ◌∙◌, ap, none, some, List, [], ◌∷◌, ◌++◌, append_assoc,
  append-nil, All, All-append, Dict, lookup, mem, lookup-insert, eq_iff, if◌then◌else◌, inl, inr,
  Option-cases, arith,
}
use pyfly.Common.Effects.{ok, World}
use pyfly.Tcc.Definitions.{
  TccPhase, trying, confirm, cancel, ParticipantDefinition, TccContext, set_participant_status,
  phase_method,
}
use pyfly.Tcc.Orchestrator.{Event, after_cancel, invoke_with_retry_and_timeout, cancel_participants}
use pyfly.Tcc.Orchestrator.Starts.{starts, started, starts-invoke}
use pyfly.Tcc.Orchestrator.Answers.{answered, answered-Extends}
use pyfly.Tcc.Orchestrator.Attempts.{invoke-Extends, answered-invoke_ok, answered-invoke_err}
use pyfly.Tcc.Orchestrator.Loops.{TryRule, ConfirmRule}

pub mem-append :
    (k : String) (xs ys : List String) → mem k (xs ++ ys) ≡ (if mem k xs then true else mem k ys)
unfolding mem
mem-append k [] ys = refl
mem-append k (x ∷ xs) ys = ground (arith, mem-append k xs ys)

abbrev pub ids_of : List ParticipantDefinition → List String
ids_of [] = []
ids_of (p ∷ ps) = p.id ∷ ids_of ps

pub ids_of-append :
    (ps qs : List ParticipantDefinition) → ids_of (ps ++ qs) ≡ ids_of ps ++ ids_of qs
ids_of-append [] qs = refl
ids_of-append (p ∷ ps) qs = ap (λ l. p.id ∷ l) (ids_of-append ps qs)

-- Every participant that is not optional is among the ids.
abbrev pub MandatoryIn : List String → List ParticipantDefinition → Type 0
MandatoryIn ids = All (λ p. p.optional ≡ false → mem p.id ids ≡ true)

MandatoryIn-append :
    (ids more : List String) (ps : List ParticipantDefinition)
    → MandatoryIn ids ps
    → MandatoryIn (ids ++ more) ps
MandatoryIn-append ids more [] h = tt
MandatoryIn-append ids more (p ∷ ps) h =
    (λ must. ground (arith, h.0 must, mem-append p.id ids more), MandatoryIn-append ids more ps h.1)

-- Among the ids are those of the participants that were tried.
abbrev pub TriedIn : (tried ids : List String) → List ParticipantDefinition → Type 0
TriedIn tried ids = All (λ p. mem p.id tried ≡ true → mem p.id ids ≡ true)

TriedIn-append :
    (tried ids more : List String) (ps : List ParticipantDefinition)
    → TriedIn tried ids ps
    → TriedIn tried (ids ++ more) ps
TriedIn-append tried ids more [] h = tt
TriedIn-append tried ids more (p ∷ ps) h =
    (λ m. ground (arith, h.0 m, mem-append p.id ids more), TriedIn-append tried ids more ps h.1)

module _ {V : Type 0} (world : World Event V) where
  -- In the TRY phase nothing is confirmed or cancelled, the mandatory participants are tried in
  -- turn, and only participants of the list are tried.
  pub record Trying (done rest : List ParticipantDefinition) (ctx : TccContext V)
      (tried : List String) (h : List Event) : Type 0 where
    pub no_confirm : starts confirm h ≡ []
    pub no_cancel : starts cancel h ≡ []
    pub mandatory : MandatoryIn tried done
    pub known : (id : String) → mem id tried ≡ true → mem id (ids_of done) ≡ true
    pub accepted : answered world trying [] h ≡ tried

  -- In the CONFIRM phase nothing is cancelled, and who was tried is confirmed in turn.
  pub record Confirming (tried₀ : List String) (done rest : List ParticipantDefinition)
      (ctx : TccContext V) (tried : List String) (h : List Event) : Type 0 where
    pub no_cancel : starts cancel h ≡ []
    pub in_confirm : ctx.current_phase ≡ confirm
    pub confirmed :
        All (λ p. mem p.id tried ≡ true → lookup p.id ctx.participant_statuses ≡ some confirm) done
    pub returned : TriedIn tried (answered world confirm [] h) done
    pub same_tried : tried ≡ tried₀
    pub accepted : answered world trying [] h ≡ tried

-- The participants among the ids that have a cancel method.
abbrev pub cancellable : Dict ParticipantDefinition → List String → List String
cancellable participants [] = []
cancellable participants (pid ∷ ids) =
    let rest = cancellable participants ids in
    elim (lookup pid participants) [
      | none ↦ rest
      | some p ↦ elim p.cancel_method [ none ↦ rest | some _ ↦ p.id ∷ rest ]
    ]

-- Every id is a key.
abbrev pub Found : Dict ParticipantDefinition → List String → Type 0
Found participants = All (λ id. lookup id participants ≢ none)

module _ {V : Type 0} (world : World Event V) where
  started-other :
      (phase p : TccPhase) (p_def : ParticipantDefinition) (h : List Event)
      → (started phase p p_def ≡ [])
      → starts phase (invoke_with_retry_and_timeout world p p_def h).1 ≡ starts phase h
  started-other phase p p_def h none_started =
      starts-invoke world phase p p_def h
      ∙ ap (λ l. starts phase h ++ l) none_started
      ∙ append-nil (starts phase h)

  pub Trying-rule : TryRule world (Trying world)
  unfolding mem phase_method
  Trying-rule = record {
    succeed = λ done rest p ctx tried h v inv good. record {
      no_confirm = started-other confirm trying p h (ground arith) ∙ inv.no_confirm;
      no_cancel = started-other cancel trying p h (ground arith) ∙ inv.no_cancel;
      mandatory =
          All-append _ done (p ∷ []) (MandatoryIn-append tried (p.id ∷ []) done inv.mandatory)
            (λ must. ground (arith, mem-append p.id tried (p.id ∷ []), eq_iff p.id p.id), tt);
      known = λ id m. ground (
        arith,
        inv.known id,
        mem-append id tried (p.id ∷ []),
        ids_of-append done (p ∷ []),
        mem-append id (ids_of done) (p.id ∷ []),
      );
      accepted =
          answered-invoke_ok world trying p refl h v good ∙ ap (λ l. l ++ p.id ∷ []) inv.accepted;
    };
    skip = λ done rest p ctx tried h inv optional e bad. record {
      no_confirm = started-other confirm trying p h (ground arith) ∙ inv.no_confirm;
      no_cancel = started-other cancel trying p h (ground arith) ∙ inv.no_cancel;
      mandatory = All-append _ done (p ∷ []) inv.mandatory (λ must. cc, tt);
      known = λ id m. ground (
        arith,
        inv.known id m,
        ids_of-append done (p ∷ []),
        mem-append id (ids_of done) (p.id ∷ []),
      );
      accepted = answered-invoke_err world trying p refl h e bad ∙ inv.accepted;
    };
  }

  confirmed-set :
      (id : String) (ctx : TccContext V) (tried : List String) (ps : List ParticipantDefinition)
      → All (λ p. mem p.id tried ≡ true → lookup p.id ctx.participant_statuses ≡ some confirm) ps
      → All
          (λ p.
            mem p.id tried ≡ true
            → lookup p.id (set_participant_status id confirm ctx).participant_statuses
              ≡ some confirm)
          ps
  unfolding set_participant_status
  confirmed-set id ctx tried [] h = tt
  confirmed-set id ctx tried (p ∷ ps) h = (
    λ m. ground (arith, h.0 m, lookup-insert id p.id confirm ctx.participant_statuses),
    confirmed-set id ctx tried ps h.1,
  )

  pub Confirming-rule : (tried₀ : List String) → ConfirmRule world (Confirming world tried₀)
  unfolding phase_method set_participant_status mem
  Confirming-rule tried₀ = record {
    succeed = λ done rest p ctx tried h inv v good. record {
      no_cancel = started-other cancel confirm p h (ground arith) ∙ inv.no_cancel;
      in_confirm = inv.in_confirm;
      confirmed = All-append _ done (p ∷ []) (confirmed-set p.id ctx tried done inv.confirmed) (
        λ m.
            ground
              (arith, lookup-insert p.id p.id confirm ctx.participant_statuses, eq_iff p.id p.id),
        tt,
      );
      returned = rw (answered-invoke_ok world confirm p refl h v good) (
          All-append _ done (p ∷ [])
            (TriedIn-append tried (answered world confirm [] h) (p.id ∷ []) done inv.returned)
            (
              λ m. ground (
                arith,
                mem-append p.id (answered world confirm [] h) (p.id ∷ []),
                eq_iff p.id p.id,
              ),
              tt,
            ));
      same_tried = inv.same_tried;
      accepted =
          answered-Extends world trying confirm h _ refl (invoke-Extends world confirm p refl h)
          ∙ inv.accepted;
    };
    skip = λ done rest p ctx tried h inv absent. record {
      no_cancel = inv.no_cancel;
      in_confirm = inv.in_confirm;
      confirmed = All-append _ done (p ∷ []) inv.confirmed (λ m. ground (arith, absent), tt);
      returned = All-append _ done (p ∷ []) inv.returned (λ m. ground (arith, absent), tt);
      same_tried = inv.same_tried;
      accepted = inv.accepted;
    };
  }

  -- The CANCEL phase starts the cancel method of each id once, in order, whether one fails or not,
  -- and ends; it does not change the phase.
  pub cancel_participants-all :
      (participants : Dict ParticipantDefinition) (ids : List String) (ctx : TccContext V)
      (h : List Event)
      → Found participants ids
      → ((cancel_participants world participants ids ctx h).outcome ≡ ok tt)
        × (starts cancel (cancel_participants world participants ids ctx h).history
            ≡ starts cancel h ++ cancellable participants ids)
        × ((cancel_participants world participants ids ctx h).ctx.current_phase ≡ ctx.current_phase)
        × (starts confirm (cancel_participants world participants ids ctx h).history
            ≡ starts confirm h)
  unfolding cancel_participants set_participant_status phase_method
  cancel_participants-all participants [] ctx h found = (refl, sym (append-nil _), refl, refl)
  cancel_participants-all participants (pid ∷ ids) ctx h found =
      elim (Option-cases (lookup pid participants)) [
        | inl absent ↦ absurd (found.0 absent)
        | inr (p, here) ↦ elim (Option-cases p.cancel_method) [
          | inl without ↦
              ground (arith, here, without, cancel_participants-all participants ids ctx h found.1)
          | inr (m, has) ↦
              let (r, h') = invoke_with_retry_and_timeout world cancel p h in
              ground (
                arith,
                here,
                has,
                starts-invoke world cancel cancel p h,
                started-other confirm cancel p h (ground arith),
                append_assoc (starts cancel h) (p.id ∷ []) (cancellable participants ids),
                cancel_participants-all participants ids (after_cancel pid r ctx) h' found.1,
              )
        ]
      ]
