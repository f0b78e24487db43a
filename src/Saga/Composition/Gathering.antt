-- ===== src/Saga/Composition/Gathering.antt =====
-- transactional/saga/composition/compositor.py: what the sagas of some layers answer, and their calls.
use pyfly.Common.{
  String, Bool, List, [], ◌∷◌, ◌++◌, map, ◌≡◌, refl, sym, ap, ◌∙◌, subst, append_assoc, append-nil,
  All-append,
}
use pyfly.Common.Effects.{World}
use pyfly.Saga.Composition.{SagaResult, Event, executed, gather}
use pyfly.Saga.Composition.Processing.{names_of, AllSucceeded}

map-append : (l k : List String) → map executed (l ++ k) ≡ map executed l ++ map executed k
map-append [] k = refl
map-append (x ∷ l) k = ap (λ r. executed x ∷ r) (map-append l k)

pub two_layers :
    (h g k : List Event) (layer rest : List String)
    → g ≡ h ++ map executed layer
    → k ≡ g ++ map executed rest
    → k ≡ h ++ map executed (layer ++ rest)
two_layers h g k layer rest first second =
    second
    ∙ (ap (λ x. x ++ map executed rest) first
        ∙ (append_assoc h (map executed layer) (map executed rest)
            ∙ ap (λ x. h ++ x) (sym (map-append layer rest))))

module _ (world : World Event SagaResult) (registered : String → Bool) where
  -- Two groups of sagas, executed one after the other.
  pub gather-append :
      (l k : List String) (h : List Event)
      → (gather world registered (l ++ k) h).0
        ≡ (gather world registered l h).0
          ++ (gather world registered k (gather world registered l h).1).0
  unfolding gather
  gather-append [] k h = refl
  gather-append (name ∷ l) k h =
      ap (λ r. (name, world h (executed name)) ∷ r) (gather-append l k (h ++ executed name ∷ []))

  pub gather-names :
      (layer : List String) (h : List Event)
      → (names_of (gather world registered layer h).0 ≡ layer)
        × ((gather world registered layer h).1 ≡ h ++ map executed layer)
  unfolding gather
  gather-names [] h = (refl, sym (append-nil h))
  gather-names (name ∷ layer) h =
      let (names, history) = gather-names layer (h ++ executed name ∷ []) in
      (ap (λ l. name ∷ l) names, history ∙ append_assoc h (executed name ∷ []) (map executed layer))

  pub AllSucceeded-gather :
      (l k : List String) (h : List Event)
      → AllSucceeded (gather world registered l h).0
      → AllSucceeded (gather world registered k (gather world registered l h).1).0
      → AllSucceeded (gather world registered (l ++ k) h).0
  AllSucceeded-gather l k h first second =
      subst AllSucceeded (sym (gather-append l k h)) (All-append _ _ _ first second)

  pub gather-history :
      (l k : List String) (h : List Event)
      → (gather world registered (l ++ k) h).1
        ≡ (gather world registered k (gather world registered l h).1).1
  unfolding gather
  gather-history [] k h = refl
  gather-history (name ∷ l) k h = gather-history l k (h ++ executed name ∷ [])
