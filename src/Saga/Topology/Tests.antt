-- ===== src/Saga/Topology/Tests.antt =====
-- Runs of the layering on concrete graphs.
use mathlib.Core.Bool.{false≢true}
use pyfly.Common.{
  concat, ℕ, String, ◌≡◌, ◌≢◌, refl, sym, ◌∙◌, none, some, List, [], ◌∷◌, Dict, IsDict, no_repeats,
  count-no_repeats, count, keys, lookup, str_eq, eq_iff, if◌then◌else◌, arith,
}
use pyfly.Saga.Topology.{layered, cyclic, compute_layers}
use pyfly.Saga.Topology.Layers.{
  IsLayering, IsAcyclic, count-compute_layers, compute_layers-IsLayering, compute_layers-acyclic,
  compute_layers-ne-none,
}

-- An order is paid and picked, in any order, and then shipped.
abbrev diamond : Dict (List String)
diamond =
    ("ship", "pay" ∷ "pick" ∷ [])
    ∷ ("pick", "order" ∷ [])
    ∷ ("pay", "order" ∷ [])
    ∷ ("order", [])
    ∷ []

abbrev diamond_layers : List (List String)
diamond_layers = ("order" ∷ []) ∷ ("pay" ∷ "pick" ∷ []) ∷ ("ship" ∷ []) ∷ []

compute_layers-diamond : compute_layers diamond ≡ some (layered diamond_layers)
unfolding compute_layers
compute_layers-diamond = refl

cycle_refused :
    compute_layers (("a", "b" ∷ []) ∷ ("b", "a" ∷ []) ∷ ("c", []) ∷ []) ≡ some (cyclic 1 3)
unfolding compute_layers
cycle_refused = refl

-- A dependency on no step is told as a cycle.
unknown_refused : compute_layers (("a", "x" ∷ []) ∷ ("b", []) ∷ []) ≡ some (cyclic 1 2)
unfolding compute_layers
unknown_refused = refl

diamond-IsDict : IsDict diamond
unfolding keys no_repeats
diamond-IsDict k = count-no_repeats k (keys diamond) refl

-- One step after another.
abbrev pair : Dict (List String)
pair = ("b", "a" ∷ []) ∷ ("a", []) ∷ []

pair-IsDict : IsDict pair
unfolding keys no_repeats
pair-IsDict k = count-no_repeats k (keys pair) refl

abbrev rank : String → ℕ
rank s = if str_eq s "b" then 1 else 0

not_both : (s : String) → s ≡ "a" → s ≡ "b" → ⊥
not_both s e f = false≢true ((eq_iff "a" "b").1 (sym e ∙ f))

pair-IsAcyclic : IsAcyclic rank pair
unfolding lookup count keys
pair-IsAcyclic v p preds found some_p = ground (
  arith,
  found,
  some_p,
  not_both v,
  not_both p,
  eq_iff "b" v,
  eq_iff "a" v,
  eq_iff v "b",
  eq_iff "a" p,
  eq_iff p "b",
)

compute_layers-ne-none_example : compute_layers diamond ≢ none
compute_layers-ne-none_example = compute_layers-ne-none diamond diamond-IsDict

count-compute_layers_example : count "pay" (concat diamond_layers) ≡ count "pay" (keys diamond)
count-compute_layers_example =
    count-compute_layers diamond diamond_layers diamond-IsDict compute_layers-diamond "pay"

compute_layers-IsLayering_example : IsLayering diamond [] diamond_layers
compute_layers-IsLayering_example =
    compute_layers-IsLayering diamond diamond_layers diamond-IsDict compute_layers-diamond

compute_layers-acyclic_example :
    (ls : List (List String)) × (compute_layers pair ≡ some (layered ls))
compute_layers-acyclic_example = compute_layers-acyclic pair rank pair-IsAcyclic pair-IsDict
