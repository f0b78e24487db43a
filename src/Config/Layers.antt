-- ===== src/Config/Layers.antt =====
-- core/config.py: what a key of merged configurations holds.
use pyfly.Common.{
  String, Option, none, some, List, [], ◌∷◌, ◌≡◌, refl, sym, ap, ◌∙◌, subst, inl, inr, arith,
  str_eq, if◌then◌else◌, eq_iff, str_eq-cases, Option-cases,
}
use pyfly.Config.Values.{
  ConfigValue, null, text, scalar, section, Section, end, entry, lookup, insert, merge, merge_value,
  present, walk, IsProper, IsProperSection,
}

-- What is written over a value that may be there.
abbrev overlay : Option ConfigValue → Option ConfigValue → Option ConfigValue
unfolding merge_value
overlay old none = old
overlay old (some v) = some (merge_value old v)

lookup-insert :
    (k j : String) (v : ConfigValue) (d : Section)
    → lookup j (insert k v d) ≡ (if str_eq k j then some v else lookup j d)
unfolding lookup insert
lookup-insert k j v end = refl
lookup-insert k j v (entry i w d) =
    ground (arith, eq_iff k j, eq_iff i k, eq_iff i j, lookup-insert k j v d)

lookup-merge :
    (k : String) (b o : Section)
    → IsProperSection o
    → lookup k (merge b o) ≡ overlay (lookup k b) (lookup k o)
unfolding lookup merge IsProperSection overlay
lookup-merge k b end proper = refl
lookup-merge k b (entry j v o) (new, _, proper) =
    let written = merge_value (lookup j b) v in
    let rest = lookup-merge k (insert j written b) o proper in
    let found = lookup-insert j k written b in
    elim (str_eq-cases j k) [
      | inl (same, test) ↦
          rest
          ∙ (ap (overlay (lookup k (insert j written b))) (subst (λ x. lookup x o ≡ none) same new)
              ∙ (found
                  ∙ (ap (λ t. if t then some written else lookup k b) test
                      ∙ (ap (λ x. some (merge_value (lookup x b) v)) same
                          ∙ sym (
                              ap (λ t. overlay (lookup k b) (if t then some v else lookup k o))
                                test)))))
      | inr (_, differ) ↦
          rest
          ∙ (ap (λ x. overlay x (lookup k o))
                (found ∙ ap (λ t. if t then some written else lookup k b) differ)
              ∙ sym (ap (λ t. overlay (lookup k b) (if t then some v else lookup k o)) differ))
    ]

lookup-IsProper :
    (k : String) (d : Section) (v : ConfigValue)
    → IsProperSection d
    → lookup k d ≡ some v
    → IsProper v
unfolding lookup IsProperSection
lookup-IsProper k end v proper found = cc
lookup-IsProper k (entry j w d) v (_, first, rest) found = elim (str_eq-cases j k) [
  | inl (_, test) ↦
      let same : ◌≡◌ {A = Option ConfigValue} (some w) (some v) =
        sym (ap (λ t. if t then some w else lookup k d) test) ∙ found in
      let is : w ≡ v = cc in subst IsProper is first
  | inr (_, differ) ↦
      lookup-IsProper k d v rest (sym (ap (λ t. if t then some w else lookup k d) differ) ∙ found)
]

-- What a configuration says of a key: nothing, that no value is there, a value that is not a dict, or one.
pub data Verdict : Type 0 where
  silent blocked : Verdict
  leaf : ConfigValue → Verdict
  branch : Section → Verdict

abbrev pub at_end : ConfigValue → Verdict
at_end (section d) = branch d
at_end v = leaf v

unfoldable pub decide : List String → ConfigValue → Verdict
unfolding lookup
decide [] v = at_end v
decide (part ∷ parts) (section d) = elim (lookup part d) [ none ↦ silent | some v ↦ decide parts v ]
decide (part ∷ parts) _ = blocked

-- The value of a key after a verdict, by its value before.
unfoldable pub decided : Verdict → Option ConfigValue → Option ConfigValue
unfolding merge
decided silent before = before
decided blocked before = none
decided (leaf v) before = present v
decided (branch d) (some (section e)) = some (section (merge e d))
decided (branch d) _ = some (section d)

abbrev walk_found : List String → Option ConfigValue → Option ConfigValue
unfolding walk
walk_found parts none = none
walk_found parts (some v) = walk parts v

present-decided : (v : ConfigValue) → present v ≡ decided (at_end v) none
unfolding decided
present-decided null = refl
present-decided (text s) = refl
present-decided (scalar n) = refl
present-decided (section d) = refl

-- Over nothing, a value is what it is.
walk-decided :
    (parts : List String) (v : ConfigValue) → walk parts v ≡ decided (decide parts v) none
unfolding walk decide decided
walk-decided [] v = present-decided v
walk-decided (part ∷ parts) null = refl
walk-decided (part ∷ parts) (text s) = refl
walk-decided (part ∷ parts) (scalar n) = refl
walk-decided (part ∷ parts) (section d) = elim (Option-cases (lookup part d)) [
  | inl missing ↦ ground arith
  | inr (v, found) ↦ ground (arith, walk-decided parts v)
]

ended :
    (old : Option ConfigValue) (v : ConfigValue)
    → present (merge_value old v) ≡ decided (at_end v) (walk_found [] old)
unfolding walk decided merge_value walk_found
ended old null = refl
ended old (text s) = refl
ended old (scalar n) = refl
ended none (section d) = refl
ended (some null) (section d) = refl
ended (some (text s)) (section d) = refl
ended (some (scalar n)) (section d) = refl
ended (some (section e)) (section d) = refl

walk-merge_value :
    (parts : List String) (old : Option ConfigValue) (v : ConfigValue)
    → IsProper v
    → walk parts (merge_value old v) ≡ decided (decide parts v) (walk_found parts old)
unfolding walk decide decided merge_value walk_found IsProper
walk-merge_value [] old v proper = ended old v
walk-merge_value (part ∷ parts) old null proper = refl
walk-merge_value (part ∷ parts) old (text s) proper = refl
walk-merge_value (part ∷ parts) old (scalar n) proper = refl
walk-merge_value (part ∷ parts) none (section d) proper = walk-decided (part ∷ parts) (section d)
walk-merge_value (part ∷ parts) (some null) (section d) proper =
    walk-decided (part ∷ parts) (section d)
walk-merge_value (part ∷ parts) (some (text s)) (section d) proper =
    walk-decided (part ∷ parts) (section d)
walk-merge_value (part ∷ parts) (some (scalar n)) (section d) proper =
    walk-decided (part ∷ parts) (section d)
walk-merge_value (part ∷ parts) (some (section e)) (section d) proper =
    let merged = lookup-merge part e d proper in
    elim (Option-cases (lookup part d)) [
      | inl missing ↦
          ap (walk_found parts) (merged ∙ ap (overlay (lookup part e)) missing)
          ∙ sym (
              ap
                (λ o.
                  decided (elim o [ none ↦ silent | some v ↦ decide parts v ])
                    (walk_found parts (lookup part e)))
                missing)
      | inr (v, found) ↦
          ap (walk_found parts) (merged ∙ ap (overlay (lookup part e)) found)
          ∙ (walk-merge_value parts (lookup part e) v (lookup-IsProper part d v proper found)
              ∙ sym (
                  ap
                    (λ o.
                      decided (elim o [ none ↦ silent | some w ↦ decide parts w ])
                        (walk_found parts (lookup part e)))
                    found))
    ]

-- A key of merged configurations holds what the later one says of it, over what it holds in the earlier:
-- a value other than a dict replaces what was there, whatever it is, None takes it away, dicts are merged,
-- and a key that the later one does not reach keeps its value.
pub walk-merge :
    (parts : List String) (base override : Section)
    → IsProperSection override
    → walk parts (section (merge base override))
      ≡ decided (decide parts (section override)) (walk parts (section base))
unfolding merge_value walk_found IsProper
walk-merge parts base override proper =
    walk-merge_value parts (some (section base)) (section override) proper
