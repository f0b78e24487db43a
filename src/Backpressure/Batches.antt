-- ===== src/Backpressure/Batches.antt =====
-- The batched strategy gives the answers of all items in their order.
use pyfly.Common.{
  ℕ, zero, suc, ◌+◌, ◌≤◌, ◌<◌, List, [], ◌∷◌, ◌++◌, ◌≡◌, refl, ap, ◌∙◌, length, arith,
}
use pyfly.Common.Effects.{Result, ok}
use pyfly.Backpressure.{BackpressureConfig, take, drop, gather, batches, apply_batched}

length-drop_le : {A : Type 0} (n : ℕ) (items : List A) → length (drop n items) ≤ length items
unfolding drop
length-drop_le n [] = omega arith
length-drop_le zero (x ∷ items) = omega arith
length-drop_le (suc n) (x ∷ items) = omega (arith, length-drop_le n items)

module _ {A B : Type 0} (processor : ℕ → A → Result B) where
  gather-split :
      (n i : ℕ) (items : List A)
      → gather processor i (take n items) ++ gather processor (i + n) (drop n items)
        ≡ gather processor i items
  unfolding gather take drop
  gather-split n i [] = refl
  gather-split zero i (x ∷ items) = ap (λ j. gather processor j (x ∷ items)) (omega arith)
  gather-split (suc n) i (x ∷ items) =
      ap (λ ys. processor i x ∷ ys)
        (ap (λ j. gather processor (i + 1) (take n items) ++ gather processor j (drop n items))
            (omega arith)
          ∙ gather-split n (i + 1) items)

  batches-gather :
      (fuel n i : ℕ) (items : List A)
      → 0 < n
      → length items ≤ fuel
      → batches processor fuel n i items ≡ gather processor i items
  unfolding batches gather drop
  batches-gather fuel n i [] pos enough = refl
  batches-gather zero n i (x ∷ items) pos enough = elim enough [ ]
  batches-gather (suc fuel) zero i (x ∷ items) pos enough = elim pos [ ]
  batches-gather (suc fuel) (suc n) i (x ∷ items) pos enough =
      ap (λ ys. gather processor i (take (suc n) (x ∷ items)) ++ ys)
        (batches-gather fuel (suc n) (i + suc n) (drop n items) pos
          (omega (arith, length-drop_le n items)))
      ∙ gather-split (suc n) i (x ∷ items)

  -- With a batch size above 0, the results are those of all items in their order, whatever the size;
  -- an answer that is an exception does not keep others from being given.
  pub apply_batched-gather :
      (items : List A) (config : BackpressureConfig)
      → 0 < config.batch_size
      → apply_batched processor items config ≡ ok (gather processor 0 items)
  unfolding apply_batched gather
  apply_batched-gather [] config pos = refl
  apply_batched-gather (x ∷ items) config pos =
      ground (
        arith,
        batches-gather (length (x ∷ items)) config.batch_size 0 (x ∷ items) pos (omega arith),
      )
