-- ===== src/Tcc/Orchestrator/Answers.antt =====
-- Which phase methods answer: the participants whose call returned, by the history and the world.
use pyfly.Common.{
  String, false, ◌≡◌, refl, sym, ap, ◌∙◌, List, [], ◌∷◌, ◌++◌, append_assoc, append-nil, All,
  All-append, if◌then◌else◌, arith,
}
use pyfly.Common.Effects.{is_ok, World}
use pyfly.Tcc.Definitions.{TccPhase, same_phase}
use pyfly.Tcc.Orchestrator.{Event, called, slept}

-- The event is a call of the phase's method, or a sleep.
abbrev pub IsOf : TccPhase → Event → Type 0
IsOf phase (called p id attempt timeout_ms) = p ≡ phase
IsOf phase (slept ms) = Unit {0}

-- What came after `h` was calls of one phase's methods, and sleeps.
pub record Extends (phase : TccPhase) (h h' : List Event) : Type 0 where
  pub events : List Event
  pub extends : h' ≡ h ++ events
  pub of_phase : All (IsOf phase) events

pub Extends-refl : (phase : TccPhase) (h : List Event) → Extends phase h h
Extends-refl phase h = record { events = []; extends = sym (append-nil h); of_phase = tt }

pub Extends-trans :
    (phase : TccPhase) (h k l : List Event)
    → Extends phase h k
    → Extends phase k l
    → Extends phase h l
Extends-trans phase h k l first second = record {
  events = first.events ++ second.events;
  extends =
      second.extends
      ∙ ap (λ x. x ++ second.events) first.extends
      ∙ append_assoc h first.events second.events;
  of_phase = All-append _ first.events second.events first.of_phase second.of_phase;
}

module _ {V : Type 0} (world : World Event V) where
  -- The participants whose method of the phase was called and returned, in order.
  unfoldable pub answered : TccPhase → (before events : List Event) → List String
  answered phase before [] = []
  answered phase before (called p id attempt timeout_ms ∷ events) =
      let event = called p id attempt timeout_ms in
      let rest = answered phase (before ++ event ∷ []) events in
      if same_phase phase p then (if is_ok (world before event) then id ∷ rest else rest) else rest
  answered phase before (slept ms ∷ events) = answered phase (before ++ slept ms ∷ []) events

  pub answered-append :
      (phase : TccPhase) (before k l : List Event)
      → answered phase before (k ++ l) ≡ answered phase before k ++ answered phase (before ++ k) l
  unfolding answered
  answered-append phase before [] l = ap (λ x. answered phase x l) (sym (append-nil before))
  answered-append phase before (called p id attempt timeout_ms ∷ k) l =
      let event = called p id attempt timeout_ms in
      ground (
        arith,
        answered-append phase (before ++ event ∷ []) k l,
        append_assoc before (event ∷ []) k,
      )
  answered-append phase before (slept ms ∷ k) l =
      answered-append phase (before ++ slept ms ∷ []) k l
      ∙ ap (λ x. answered phase (before ++ slept ms ∷ []) k ++ answered phase x l)
          (append_assoc before (slept ms ∷ []) k)

  answered-other :
      (asked phase : TccPhase) (before events : List Event)
      → same_phase asked phase ≡ false
      → All (IsOf phase) events
      → answered asked before events ≡ []
  unfolding answered
  answered-other asked phase before [] other of_phase = refl
  answered-other asked phase before (called p id attempt timeout_ms ∷ events) other of_phase =
      let event = called p id attempt timeout_ms in
      ground (
        arith,
        ap (same_phase asked) of_phase.0,
        other,
        answered-other asked phase (before ++ event ∷ []) events other of_phase.1,
      )
  answered-other asked phase before (slept ms ∷ events) other of_phase =
      answered-other asked phase (before ++ slept ms ∷ []) events other of_phase.1

  pub answered-Extends :
      (asked phase : TccPhase) (h h' : List Event)
      → same_phase asked phase ≡ false
      → Extends phase h h'
      → answered asked [] h' ≡ answered asked [] h
  answered-Extends asked phase h h' other e =
      ap (answered asked []) e.extends
      ∙ answered-append asked [] h e.events
      ∙ ap (λ l. answered asked [] h ++ l) (answered-other asked phase h e.events other e.of_phase)
      ∙ append-nil (answered asked [] h)
