-- ===== src/Tcc/Orchestrator/Starts.antt =====
-- Which phase methods are started: the first attempts, in order.
use native.Mathlib.Numerals.{add-one}
use pyfly.Common.{
  ℕ, zero, suc, ◌*◌, String, Bool, true, false, ◌≡◌, refl, sym, ◌∙◌, none, some, List, [], ◌∷◌,
  ◌++◌, append-nil, ◌==◌, ltb, inl, inr, Option-cases, if◌then◌else◌, arith,
}
use pyfly.Common.Effects.{
  Exception, Result, ok, err, World, Act, pure, perform, on_error, when, ◌>>◌,
}
use pyfly.Tcc.Definitions.{TccPhase, same_phase, ParticipantDefinition, phase_method}
use pyfly.Tcc.Orchestrator.{Event, called, slept, invoke, attempts, invoke_with_retry_and_timeout}

unfoldable pub starts : TccPhase → List Event → List String
starts phase [] = []
starts phase (called p id attempt timeout_ms ∷ h) =
    let rest = starts phase h in
    if attempt == 1 then (if same_phase phase p then id ∷ rest else rest) else rest
starts phase (slept ms ∷ h) = starts phase h

pub starts-append :
    (phase : TccPhase) (h k : List Event) → starts phase (h ++ k) ≡ starts phase h ++ starts phase k
unfolding starts
starts-append phase [] k = refl
starts-append phase (called p id attempt timeout_ms ∷ h) k = ground (arith, starts-append phase h k)
starts-append phase (slept ms ∷ h) k = starts-append phase h k

-- What one start adds: the id, if the phase is the one asked for and has a method.
abbrev pub started : TccPhase → TccPhase → ParticipantDefinition → List String
unfolding phase_method
started phase p p_def = elim (phase_method p_def p) [
  | none ↦ []
  | some _ ↦ if same_phase phase p then p_def.id ∷ [] else []
]

starts-later_call :
    (phase p : TccPhase) (id : String) (attempt timeout_ms : ℕ) (h : List Event)
    → starts phase (h ++ called p id (suc (suc attempt)) timeout_ms ∷ []) ≡ starts phase h
unfolding starts
starts-later_call phase p id attempt timeout_ms h =
    starts-append phase h _ ∙ ground (arith, append-nil (starts phase h))

starts-slept :
    (phase : TccPhase) (ms : ℕ) (h : List Event)
    → starts phase (h ++ slept ms ∷ []) ≡ starts phase h
unfolding starts
starts-slept phase ms h = starts-append phase h _ ∙ append-nil (starts phase h)

module _ {V : Type 0} (world : World Event V) (phase p : TccPhase)
    (p_def : ParticipantDefinition) where
  starts-invoke_first :
      (h : List Event)
      → starts phase (invoke world p p_def 1 h).1 ≡ starts phase h ++ started phase p p_def
  unfolding invoke starts
  starts-invoke_first h = elim (Option-cases (phase_method p_def p)) [
    | inl absent ↦ rw (absent, invoke, started) (sym (append-nil _))
    | inr (m, found) ↦ rw (found, invoke, started) (starts-append phase h _)
  ]

  starts-invoke_later :
      (attempt : ℕ) (h : List Event)
      → starts phase (invoke world p p_def (suc (suc attempt)) h).1 ≡ starts phase h
  unfolding invoke
  starts-invoke_later attempt h = elim (Option-cases (phase_method p_def p)) [
    | inl absent ↦ rw (absent, invoke)
    | inr (m, found) ↦ rw (found, invoke) (starts-later_call phase p p_def.id attempt _ h)
  ]

  starts-pause :
      (b : Bool) (ms : ℕ) (rest : Act Event V) (h : List Event)
      → ((k : List Event) → starts phase (rest k).1 ≡ starts phase k)
      → starts phase ((when b (perform world (slept ms) >> pure tt) >> rest) h).1 ≡ starts phase h
  starts-pause false ms rest h silent = silent h
  starts-pause true ms rest h silent = paused (world h (slept ms))
    where
      h' : List Event
      h' = h ++ slept ms ∷ []

      paused :
          (r : Result V) → starts phase (((λ _. (r, h')) >> pure tt >> rest) h).1 ≡ starts phase h
      paused (ok v) = silent h' ∙ starts-slept phase ms h
      paused (err e) = starts-slept phase ms h

  starts-on_error :
      (r : Result V) (handler : Exception → Act Event V) (h : List Event)
      → ((e : Exception) → starts phase (handler e h).1 ≡ starts phase h)
      → starts phase (on_error r handler h).1 ≡ starts phase h
  starts-on_error (ok v) handler h silent = refl
  starts-on_error (err e) handler h silent = silent e

  starts-later :
      (left attempt backoff_ms : ℕ) (h : List Event)
      → starts phase (attempts world p p_def left (suc (suc attempt)) backoff_ms h).1
        ≡ starts phase h
  unfolding attempts
  starts-later zero attempt backoff_ms h = starts-invoke_later attempt h
  starts-later (suc left) attempt backoff_ms h =
      let (r, h') = invoke world p p_def (suc (suc attempt)) h in
      starts-on_error r _ h' (λ e.
        starts-pause (ltb 0 backoff_ms) backoff_ms _ h'
          (λ k. rw add-one (starts-later left (suc attempt) (backoff_ms * 2) k)))
      ∙ starts-invoke_later attempt h

  starts-attempts :
      (left backoff_ms : ℕ) (h : List Event)
      → starts phase (attempts world p p_def left 1 backoff_ms h).1
        ≡ starts phase h ++ started phase p p_def
  unfolding attempts
  starts-attempts zero backoff_ms h = starts-invoke_first h
  starts-attempts (suc left) backoff_ms h =
      let (r, h') = invoke world p p_def 1 h in
      starts-on_error r _ h' (λ e.
        starts-pause (ltb 0 backoff_ms) backoff_ms _ h'
          (λ k. starts-later left 0 (backoff_ms * 2) k))
      ∙ starts-invoke_first h

  -- However often it is retried, one invocation is one start.
  pub starts-invoke :
      (h : List Event)
      → starts phase (invoke_with_retry_and_timeout world p p_def h).1
        ≡ starts phase h ++ started phase p p_def
  unfolding invoke_with_retry_and_timeout
  starts-invoke h = starts-attempts _ _ h
