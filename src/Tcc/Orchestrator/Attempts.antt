-- ===== src/Tcc/Orchestrator/Attempts.antt =====
-- What the attempts at a phase method add to the history, and to the participants that answered.
use pyfly.Common.{
  ℕ, zero, suc, ◌+◌, ◌*◌, String, Bool, true, false, ◌≡◌, refl, sym, ap, ◌∙◌, List, [], ◌∷◌, ◌++◌,
  append-nil, Dict, lookup, ltb, inl, inr, Option-cases, arith,
}
use pyfly.Common.Effects.{
  Exception, Result, ok, err, World, Act, pure, perform, on_error, when, ◌>>◌,
}
use pyfly.Tcc.Definitions.{
  TccPhase, cancel, same_phase, ParticipantDefinition, TccContext, phase_method,
}
use pyfly.Tcc.Orchestrator.{
  Event, called, slept, invoke, attempts, invoke_with_retry_and_timeout, after_cancel,
  cancel_participants,
}
use pyfly.Tcc.Orchestrator.Answers.{Extends, Extends-refl, Extends-trans, answered, answered-append}

module _ {V : Type 0} (world : World Event V) where
  module _ (phase : TccPhase) (p_def : ParticipantDefinition)
      (same : same_phase phase phase ≡ true) where
    -- Some attempts at a call: what returns is answered last.
    abbrev accepted : Result V → List String
    accepted (ok v) = p_def.id ∷ []
    accepted (err e) = []

    record Made (h : List Event) (r : Result V) (h' : List Event) : Type 0 where
      extension : Extends phase h h'
      accepts : answered world phase [] h' ≡ answered world phase [] h ++ accepted r

    -- Attempts and sleeps with no answer so far.
    record Silent (h h' : List Event) : Type 0 where
      extension : Extends phase h h'
      nothing : answered world phase [] h' ≡ answered world phase [] h

    Made-after : (h k l : List Event) (r : Result V) → Silent h k → Made k r l → Made h r l
    Made-after h k l r silent made = record {
      extension = Extends-trans phase h k l silent.extension made.extension;
      accepts = made.accepts ∙ ap (λ x. x ++ accepted r) silent.nothing;
    }

    Silent-failure : (h k : List Event) (e : Exception) → Made h (err e) k → Silent h k
    Silent-failure h k e made = record {
      extension = made.extension;
      nothing = made.accepts ∙ append-nil (answered world phase [] h);
    }

    Made-failure : (h k : List Event) (e : Exception) → Silent h k → Made h (err e) k
    Made-failure h k e silent = record {
      extension = silent.extension;
      accepts = silent.nothing ∙ sym (append-nil (answered world phase [] h));
    }

    called-Made :
        (h : List Event) (attempt timeout_ms : ℕ) (r : Result V)
        → world h (called phase p_def.id attempt timeout_ms) ≡ r
        → Made h r (h ++ called phase p_def.id attempt timeout_ms ∷ [])
    unfolding answered
    called-Made h attempt timeout_ms (ok v) e = record {
      extension = record {
        events = called phase p_def.id attempt timeout_ms ∷ [];
        extends = refl;
        of_phase = (refl, tt);
      };
      accepts =
          answered-append world phase [] h (called phase p_def.id attempt timeout_ms ∷ [])
          ∙ ground (arith, e, same);
    }
    called-Made h attempt timeout_ms (err x) e = record {
      extension = record {
        events = called phase p_def.id attempt timeout_ms ∷ [];
        extends = refl;
        of_phase = (refl, tt);
      };
      accepts =
          answered-append world phase [] h (called phase p_def.id attempt timeout_ms ∷ [])
          ∙ ground (arith, e, same);
    }

    slept-Silent : (h : List Event) (ms : ℕ) → Silent h (h ++ slept ms ∷ [])
    unfolding answered
    slept-Silent h ms = record {
      extension = record { events = slept ms ∷ []; extends = refl; of_phase = (tt, tt) };
      nothing =
          answered-append world phase [] h (slept ms ∷ []) ∙ append-nil (answered world phase [] h);
    }

    invoke-Made :
        (attempt : ℕ) (h : List Event)
        → Made h (invoke world phase p_def attempt h).0 (invoke world phase p_def attempt h).1
    unfolding invoke
    invoke-Made attempt h = elim (Option-cases (phase_method p_def phase)) [
      | inl absent ↦
          rw (absent, invoke)
            (Made-failure h h _ (record { extension = Extends-refl phase h; nothing = refl }))
      | inr (m, found) ↦ rw (found, invoke) (called-Made h attempt _ _ refl)
    ]

    pause-Made :
        (b : Bool) (ms : ℕ) (rest : Act Event V) (h : List Event)
        → ((k : List Event) → Made k (rest k).0 (rest k).1)
        → Made h
            ((when b (perform world (slept ms) >> pure tt) >> rest) h).0
            ((when b (perform world (slept ms) >> pure tt) >> rest) h).1
    pause-Made false ms rest h made = made h
    pause-Made true ms rest h made = paused (world h (slept ms))
      where
        h' : List Event
        h' = h ++ slept ms ∷ []

        paused :
            (r : Result V)
            → Made h
                (((λ _. (r, h')) >> pure tt >> rest) h).0
                (((λ _. (r, h')) >> pure tt >> rest) h).1
        paused (ok v) = Made-after h h' (rest h').1 (rest h').0 (slept-Silent h ms) (made h')
        paused (err e) = Made-failure h h' e (slept-Silent h ms)

    on_error-Made :
        (r : Result V) (handler : Exception → Act Event V) (h k : List Event)
        → Made h r k
        → ((e : Exception) → Made k (handler e k).0 (handler e k).1)
        → Made h (on_error r handler k).0 (on_error r handler k).1
    on_error-Made (ok v) handler h k made later = made
    on_error-Made (err e) handler h k made later =
        Made-after h k (handler e k).1 (handler e k).0 (Silent-failure h k e made) (later e)

    attempts-Made :
        (left attempt backoff_ms : ℕ) (h : List Event)
        → Made h
            (attempts world phase p_def left attempt backoff_ms h).0
            (attempts world phase p_def left attempt backoff_ms h).1
    unfolding attempts
    attempts-Made zero attempt backoff_ms h = invoke-Made attempt h
    attempts-Made (suc left) attempt backoff_ms h =
        let (r, h') = invoke world phase p_def attempt h in
        on_error-Made r _ h h' (invoke-Made attempt h) (λ e.
          pause-Made (ltb 0 backoff_ms) backoff_ms _ h'
            (λ k. attempts-Made left (attempt + 1) (backoff_ms * 2) k))

    invoke_with_retry-Made :
        (h : List Event)
        → Made h
            (invoke_with_retry_and_timeout world phase p_def h).0
            (invoke_with_retry_and_timeout world phase p_def h).1
    unfolding invoke_with_retry_and_timeout
    invoke_with_retry-Made h = attempts-Made _ _ _ h

    pub invoke-Extends :
        (h : List Event) → Extends phase h (invoke_with_retry_and_timeout world phase p_def h).1
    invoke-Extends h = (invoke_with_retry-Made h).extension

    pub answered-invoke_ok :
        (h : List Event) (v : V)
        → (invoke_with_retry_and_timeout world phase p_def h).0 ≡ ok v
        → answered world phase [] (invoke_with_retry_and_timeout world phase p_def h).1
          ≡ answered world phase [] h ++ p_def.id ∷ []
    answered-invoke_ok h v good =
        (invoke_with_retry-Made h).accepts ∙ ap (λ r. answered world phase [] h ++ accepted r) good

    pub answered-invoke_err :
        (h : List Event) (e : Exception)
        → (invoke_with_retry_and_timeout world phase p_def h).0 ≡ err e
        → answered world phase [] (invoke_with_retry_and_timeout world phase p_def h).1
          ≡ answered world phase [] h
    answered-invoke_err h e bad =
        (invoke_with_retry-Made h).accepts
        ∙ ap (λ r. answered world phase [] h ++ accepted r) bad
        ∙ append-nil (answered world phase [] h)

  -- The CANCEL phase calls nothing but cancel methods.
  pub cancel_participants-Extends :
      (participants : Dict ParticipantDefinition) (ids : List String) (ctx : TccContext V)
      (h : List Event)
      → Extends cancel h (cancel_participants world participants ids ctx h).history
  unfolding cancel_participants
  cancel_participants-Extends participants [] ctx h = Extends-refl cancel h
  cancel_participants-Extends participants (pid ∷ ids) ctx h =
      elim (Option-cases (lookup pid participants)) [
        | inl absent ↦ rw (absent, cancel_participants) (Extends-refl cancel h)
        | inr (p, here) ↦ elim (Option-cases p.cancel_method) [
          | inl without ↦
              rw (here, without, cancel_participants)
                (cancel_participants-Extends participants ids ctx h)
          | inr (m, has) ↦
              let (r, h') = invoke_with_retry_and_timeout world cancel p h in
              rw (here, has, cancel_participants)
                (Extends-trans cancel h h' _ (invoke-Extends cancel p refl h)
                  (cancel_participants-Extends participants ids (after_cancel pid r ctx) h'))
        ]
      ]
