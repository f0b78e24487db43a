-- ===== src/Persistence/Cleanup.antt =====
-- What a clean-up removes.
use pyfly.Common.{
  zero-cases, Option-cases, Bool-cases, ◌||◌, insert-IsDict, ltb, ℕ, ◌+◌, ◌≤◌, ◌<◌, String, Bool,
  true, false, ◌≡◌, ◌↔◌, ◌⊎◌, refl, sym, ap, ◌∙◌, Option, none, some, List, [], ◌∷◌, Dict, IsDict,
  lookup, insert, delete, keys, count, eq_iff, inl, inr, lookup-delete, lookup-insert,
  if◌then◌else◌, arith,
}
use pyfly.Common.Effects.{ok}
use pyfly.Persistence.{
  State, is_removable, to_remove, delete_all, cleanup, has_status, mark_completed, mark_entry,
  completed_state,
}

abbrev pub kept : (older_than now : ℕ) → Option State → Option State
kept older_than now none = none
kept older_than now (some state) = if is_removable older_than now state then none else some state

lookup-delete_all :
    (k : String) (ids : List String) (store : Dict State)
    → (count k ids ≡ 0 → lookup k (delete_all ids store) ≡ lookup k store)
      × (0 < count k ids → lookup k (delete_all ids store) ≡ none)
      × (lookup k store ≡ none → lookup k (delete_all ids store) ≡ none)
unfolding delete_all count
lookup-delete_all k [] store = (λ _. refl, λ p. ground arith, λ h. h)
lookup-delete_all k (id ∷ ids) store =
    ground (arith, lookup-delete_all k ids (delete id store), lookup-delete id k store)

count-to_remove :
    (k : String) (older_than now : ℕ) (store : Dict State)
    → count k (to_remove older_than now store) ≤ count k (keys store)
unfolding to_remove keys count
count-to_remove k older_than now [] = omega arith
count-to_remove k older_than now ((id, state) ∷ store) =
    ground (arith, count-to_remove k older_than now store)

to_remove-kept :
    (k : String) (older_than now : ℕ) (store : Dict State)
    → IsDict store
    → (0 < count k (to_remove older_than now store) → kept older_than now (lookup k store) ≡ none)
      × (count k (to_remove older_than now store) ≡ 0
          → kept older_than now (lookup k store) ≡ lookup k store)
unfolding to_remove lookup keys count
to_remove-kept k older_than now [] once = (λ p. refl, λ z. refl)
to_remove-kept k older_than now ((id, state) ∷ store) once = ground (
  arith,
  once k,
  count-to_remove k older_than now store,
  to_remove-kept k older_than now store (λ i. ground (arith, once i)),
)

lookup-cleanup :
    (k : String) (older_than now : ℕ) (store : Dict State)
    → IsDict store
    → lookup k (cleanup older_than now store).1 ≡ kept older_than now (lookup k store)
unfolding cleanup
lookup-cleanup k older_than now store once =
    let removed = lookup-delete_all k (to_remove older_than now store) store in
    let chosen = to_remove-kept k older_than now store once in
    elim (zero-cases (count k (to_remove older_than now store))) [
      | inl left ↦ removed.0 left ∙ sym (chosen.1 left)
      | inr taken ↦ removed.1 taken ∙ sym (chosen.0 taken)
    ]

-- The transaction has ended before the cutoff.
abbrev pub IsOld : (older_than now : ℕ) → State → Type 0
IsOld older_than now state =
    ((state.status ≡ some "COMPLETED") ⊎ (state.status ≡ some "FAILED"))
    × ((t : ℕ) × (state.completed_at ≡ some t) × (t + older_than < now))

has_status_iff :
    (status : String) (state : State) → has_status status state ≡ true ↔ state.status ≡ some status
has_status_iff status state = elim (Option-cases state.status) [
  | inl absent ↦ (λ e. ground (arith, absent), λ e. ground (arith, absent))
  | inr (s, found) ↦ (
    λ e. ground (arith, found, eq_iff s status),
    λ e. ground (arith, found, e, eq_iff status status),
  )
]

one_and :
    (a b c : Bool) → (if a || b then c else false) ≡ true ↔ ((a ≡ true) ⊎ (b ≡ true)) × (c ≡ true)
one_and true b c = (λ e. (inl refl, e), λ p. p.1)
one_and false true c = (λ e. (inr refl, e), λ p. p.1)
one_and false false c = (λ e. cc, λ (p, q). elim p [ inl e ↦ cc | inr e ↦ cc ])

removable_time : (older_than now : ℕ) → Option ℕ → Bool
removable_time older_than now completed_at = elim completed_at [
  | none ↦ false
  | some t ↦ ltb (t + older_than) now
]

removable_time_iff :
    (older_than now : ℕ) (completed_at : Option ℕ)
    → removable_time older_than now completed_at ≡ true
      ↔ ((t : ℕ) × (completed_at ≡ some t) × (t + older_than < now))
unfolding removable_time
removable_time_iff older_than now none = (λ e. cc, λ (t, e, old). cc)
removable_time_iff older_than now (some t) =
    (λ e. (t, refl, ground arith), λ (s, e, old). ground arith)

is_removable-IsOld :
    (older_than now : ℕ) (state : State)
    → is_removable older_than now state ≡ true ↔ IsOld older_than now state
unfolding removable_time
is_removable-IsOld older_than now state =
    let completed = has_status_iff "COMPLETED" state in
    let failed = has_status_iff "FAILED" state in
    let time = removable_time_iff older_than now state.completed_at in
    let both =
      one_and (has_status "COMPLETED" state) (has_status "FAILED" state)
        (removable_time older_than now state.completed_at) in
    (
      λ e.
          let (status, late) = both.0 e in
          (elim status [ inl c ↦ inl (completed.0 c) | inr f ↦ inr (failed.0 f) ], time.0 late),
      λ (status, late).
          both.1
            (elim status [ inl c ↦ inl (completed.1 c) | inr f ↦ inr (failed.1 f) ], time.1 late),
    )

-- A clean-up leaves no state but one that was there, as it was; and it removes the state of a
-- transaction exactly if that is COMPLETED or FAILED and was completed before the cutoff.
pub cleanup-IsOld :
    (k : String) (older_than now : ℕ) (store : Dict State)
    → IsDict store
    → let found = lookup k (cleanup older_than now store).1 in
      (lookup k store ≡ none → found ≡ none)
      × ((state : State)
          → lookup k store ≡ some state
          → ((found ≡ none) × IsOld older_than now state)
            ⊎ ((found ≡ some state) × ¬ IsOld older_than now state))
cleanup-IsOld k older_than now store once =
    let kept_only = lookup-cleanup k older_than now store once in
    (
      λ absent. kept_only ∙ ap (kept older_than now) absent,
      λ state here. elim (Bool-cases (is_removable older_than now state)) [
        | inl old ↦
            inl (
              ground (arith, kept_only, here, old),
              (is_removable-IsOld older_than now state).0 old,
            )
        | inr young ↦ inr (
          ground (arith, kept_only, here, young),
          λ old. let removed = (is_removable-IsOld older_than now state).1 old in cc,
        )
      ],
    )

mark_entry-kept :
    (id : String) (successful : Bool) (older_than now time : ℕ) (state : State)
    → kept older_than now (some (completed_state successful time state))
      ≡ (if ltb (time + older_than) now then none else some (completed_state successful time state))
mark_entry-kept id true older_than now time state = refl
mark_entry-kept id false older_than now time state = refl

inserted :
    (k : String) (state : State) (store : Dict State) → lookup k (insert k state store) ≡ some state
inserted k state store = ground (arith, lookup-insert k k state store, eq_iff k k)

-- Marking a known transaction succeeds, and its state is then kept by a clean-up until it is older
-- than the clean-up's limit.
pub cleanup-mark_completed :
    (id : String) (successful : Bool) (older_than now time : ℕ) (store : Dict State) (state : State)
    → IsDict store
    → lookup id store ≡ some state
    → (store' : Dict State) × (mark_completed id successful time store ≡ ok store')
      × (lookup id (cleanup older_than now store').1 ≡ (
          if ltb (time + older_than) now
          then none
          else some (completed_state successful time state)))
unfolding mark_completed mark_entry
cleanup-mark_completed id successful older_than now time store state once found =
    let store' = insert id (completed_state successful time state) store in
    (
      store',
      ap (mark_entry id successful time store) found,
      lookup-cleanup id older_than now store'
            (insert-IsDict id (completed_state successful time state) store once)
          ∙ (ap (kept older_than now) (inserted id (completed_state successful time state) store)
              ∙ mark_entry-kept id successful older_than now time state),
    )
