-- ===== src/Tcc/Orchestrator/Members.antt =====
-- Which participants a transaction has, and which of them have confirmed.
use mathlib.Core.List.{reverse-append}
use pyfly.Common.{
  String, true, false, ◌≡◌, ◌≢◌, none, some, List, [], ◌∷◌, All, All-append, Dict, lookup, mem,
  reverse, eq_iff, arith,
}
use pyfly.Tcc.Definitions.{confirm, ParticipantDefinition, TccContext}
use pyfly.Tcc.Orchestrator.{participants_of}
use pyfly.Tcc.Orchestrator.Phases.{ids_of, MandatoryIn, TriedIn, Found}

-- Every participant stands under its own id.
abbrev pub Keyed : Dict ParticipantDefinition → Type 0
Keyed = All (λ (pid, p). p.id ≡ pid)

-- Every participant that is not optional has reached CONFIRM.
abbrev pub AllConfirmed : {V : Type 0} → TccContext V → List ParticipantDefinition → Type 0
AllConfirmed ctx =
    All (λ p. p.optional ≡ false → lookup p.id ctx.participant_statuses ≡ some confirm)

pub found-id :
    (participants : Dict ParticipantDefinition) (id : String)
    → Keyed participants
    → mem id (ids_of (participants_of participants)) ≡ true
    → lookup id participants ≢ none
unfolding participants_of mem lookup
found-id [] id keyed m e = cc
found-id ((pid, p) ∷ rest) id keyed m e = ground (arith, keyed.0, found-id rest id keyed.1)

pub Found-of :
    (participants : Dict ParticipantDefinition) (ids : List String)
    → ((id : String) → mem id ids ≡ true → lookup id participants ≢ none)
    → Found participants ids
unfolding mem
Found-of participants [] h = tt
Found-of participants (id ∷ ids) h = (
  h id (ground (arith, eq_iff id id)),
  Found-of participants ids (λ j m. h j (ground (arith, m))),
)

pub Found-reverse :
    (participants : Dict ParticipantDefinition) (ids : List String)
    → Found participants ids
    → Found participants (reverse ids)
Found-reverse participants [] h = tt
Found-reverse participants (id ∷ ids) h =
    rw (reverse-append (id ∷ []) ids)
      (All-append _ (reverse ids) (id ∷ []) (Found-reverse participants ids h.1) (h.0, tt))

pub confirmed-mandatory :
    {V : Type 0} (ctx : TccContext V) (tried : List String) (ps : List ParticipantDefinition)
    → MandatoryIn tried ps
    → All (λ p. mem p.id tried ≡ true → lookup p.id ctx.participant_statuses ≡ some confirm) ps
    → AllConfirmed ctx ps
confirmed-mandatory ctx tried [] m c = tt
confirmed-mandatory ctx tried (p ∷ ps) m c =
    (λ must. c.0 (m.0 must), confirmed-mandatory ctx tried ps m.1 c.1)

pub mandatory-returned :
    (tried ids : List String) (ps : List ParticipantDefinition)
    → MandatoryIn tried ps
    → TriedIn tried ids ps
    → MandatoryIn ids ps
mandatory-returned tried ids [] m r = tt
mandatory-returned tried ids (p ∷ ps) m r =
    (λ must. r.0 (m.0 must), mandatory-returned tried ids ps m.1 r.1)
