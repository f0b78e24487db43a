-- ===== src/Config/Values.antt =====
-- core/config.py: the nested dicts of a configuration, how one is merged into another, and the walk along
-- a key. Texts and None apart, a value that is not a dict is a number.
use pyfly.Common.{ℕ, String, Option, none, some, List, [], ◌∷◌, ◌≡◌, str_eq, if◌then◌else◌}

mutual
  pub data ConfigValue : Type 0 where
    null : ConfigValue
    text : String → ConfigValue
    scalar : ℕ → ConfigValue
    section : Section → ConfigValue

  pub data Section : Type 0 where
    end : Section
    entry : String → ConfigValue → Section → Section

unfoldable pub lookup : String → Section → Option ConfigValue
lookup k end = none
lookup k (entry j v d) = if str_eq j k then some v else lookup k d

unfoldable pub insert : String → ConfigValue → Section → Section
insert k v end = entry k v end
insert k v (entry j w d) = if str_eq j k then entry j v d else entry j w (insert k v d)

-- _deep_merge
unfoldable mutual
  unfolding lookup insert

  pub merge : Section → Section → Section
  merge base end = base
  merge base (entry k v override) = merge (insert k (merge_value (lookup k base) v) base) override

  pub merge_value : Option ConfigValue → ConfigValue → ConfigValue
  merge_value old null = null
  merge_value old (text s) = text s
  merge_value old (scalar n) = scalar n
  merge_value none (section override) = section override
  merge_value (some null) (section override) = section override
  merge_value (some (text s)) (section override) = section override
  merge_value (some (scalar n)) (section override) = section override
  merge_value (some (section base)) (section override) = section (merge base override)

abbrev pub present : ConfigValue → Option ConfigValue
present null = none
present (text s) = some (text s)
present (scalar n) = some (scalar n)
present (section d) = some (section d)

unfoldable pub child : String → ConfigValue → Option ConfigValue
unfolding lookup
child part (section d) = lookup part d
child part _ = none

-- The walk of `get`: None, on the way or at the end, is as a missing key.
unfoldable pub walk : List String → ConfigValue → Option ConfigValue
unfolding child
walk [] v = present v
walk (part ∷ parts) v = elim (child part v) [ none ↦ none | some w ↦ walk parts w ]

-- No key stands twice in a dict, at any depth.
unfoldable mutual
  unfolding lookup

  pub IsProper : ConfigValue → Type 0
  IsProper null = Unit
  IsProper (text s) = Unit
  IsProper (scalar n) = Unit
  IsProper (section d) = IsProperSection d

  pub IsProperSection : Section → Type 0
  IsProperSection end = Unit
  IsProperSection (entry k v d) = (lookup k d ≡ none) × IsProper v × IsProperSection d
