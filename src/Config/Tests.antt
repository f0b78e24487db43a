-- ===== src/Config/Tests.antt =====
-- A configuration with a profile, and placeholders in its values.
use pyfly.Common.{
  String, false, Option, none, some, List, [], ◌∷◌, ◌≡◌, refl, sym, ap, ◌∙◌, subst, Bool-cases, inl,
  inr, str_eq, if◌then◌else◌,
}
use pyfly.Common.Effects.{value_error, ok, err}
use pyfly.Config.Values.{
  ConfigValue, null, text, scalar, section, Section, end, entry, lookup, child, walk, IsProper,
  IsProperSection,
}
use pyfly.Config.Layers.{decide}
use pyfly.Common.Texts.{cat}
use pyfly.Config.Texts.{outside, pieces, show}
use pyfly.Config.Texts.Splitting.{IsSplit, pieces-IsSplit}
use pyfly.Common.Texts.{strip_prefix}
use pyfly.Config.Keys.{
  split, split_default, contains_from, contains_placeholder, remove_prefix, with_underscores,
  env_key,
}
use pyfly.Config.Sources.{
  Candidate, candidates, profile_files, from_sources, says, from_sources-says,
}
use pyfly.Config.Reading.{
  prepend, join, substitute, resolve_again, replace_by, replace_unless, replace,
  resolve_placeholders, get,
}
use pyfly.Config.Levels.{resolve_placeholders-suc}

unfoldable base_file : Section
base_file = entry "web" (section (entry "port" (scalar 8080) (entry "host" (text "a") end))) end

unfoldable dev_file : Section
dev_file = entry "web" (section (entry "port" (scalar 9090) end)) end

abbrev files : String → Option Section
unfolding base_file dev_file
files path =
    if str_eq path "app/pyfly.yaml"
    then some base_file
    else if str_eq path "app/pyfly-dev.yaml"
    then some dev_file
    else none

is_base : (d : Section) → ◌≡◌ {A = Option Section} (some base_file) (some d) → base_file ≡ d
is_base d same = cc

is_dev : (d : Section) → ◌≡◌ {A = Option Section} (some dev_file) (some d) → dev_file ≡ d
is_dev d same = cc

base_file-IsProper : IsProperSection base_file
unfolding base_file IsProperSection IsProper lookup
base_file-IsProper = (refl, (refl, tt, (refl, tt, tt)), tt)

dev_file-IsProper : IsProperSection dev_file
unfolding dev_file IsProperSection IsProper lookup
dev_file-IsProper = (refl, (refl, tt, tt), tt)

files-IsProper :
    (path : String) (content : Section) → files path ≡ some content → IsProperSection content
unfolding files
files-IsProper path content found = elim (Bool-cases (str_eq path "app/pyfly.yaml")) [
  | inl base ↦
      subst IsProperSection
        (is_base content (
          sym (
            ap
              (λ b.
                if b
                then some base_file
                else if str_eq path "app/pyfly-dev.yaml"
                then some dev_file
                else none)
              base)
          ∙ found))
        base_file-IsProper
  | inr other ↦
      let rest =
        sym (
          ap
            (λ b.
              if b
              then some base_file
              else if str_eq path "app/pyfly-dev.yaml"
              then some dev_file
              else none)
            other)
        ∙ found in
      elim (Bool-cases (str_eq path "app/pyfly-dev.yaml")) [
        | inl dev ↦
            subst IsProperSection
              (is_dev content (sym (ap (λ b. if b then some dev_file else none) dev) ∙ rest))
              dev_file-IsProper
        | inr neither ↦
            let no : ◌≡◌ {A = Option Section} none (some content) =
              sym (ap (λ b. if b then some dev_file else none) neither) ∙ rest in
            cc
      ]
]

abbrev plain : String → Candidate
plain path = record { path = path; label = path }

abbrev of_dev : String → String → Candidate
of_dev path label = record { path = path; label = label }

abbrev before : List Candidate
before =
    plain "app/config/pyfly.yaml"
    ∷ plain "app/config/pyfly.toml"
    ∷ plain "app/pyfly.yaml"
    ∷ plain "app/pyfly.toml"
    ∷ of_dev "app/config/pyfly-dev.yaml" "app/config/pyfly-dev.yaml (profile: dev)"
    ∷ of_dev "app/config/pyfly-dev.toml" "app/config/pyfly-dev.toml (profile: dev)"
    ∷ []

-- The profile's file stands for the port, the base file for the host.
from_sources-says_example :
    walk ("web" ∷ "port" ∷ []) (section (from_sources files end "app" ("dev" ∷ []) false).data_of)
    ≡ some (scalar 9090)
unfolding candidates profile_files says decide files base_file dev_file cat lookup IsProperSection
    IsProper
from_sources-says_example =
    from_sources-says files files-IsProper ("web" ∷ "port" ∷ []) end "app" ("dev" ∷ []) false before
      ((record { path = "app/pyfly-dev.toml"; label = "app/pyfly-dev.toml (profile: dev)" }) ∷ [])
      (record { path = "app/pyfly-dev.yaml"; label = "app/pyfly-dev.yaml (profile: dev)" })
      (scalar 9090) refl refl (refl, tt)

pieces-IsSplit_example :
    (show (pieces outside "a ${b} ${} $") ≡ "a ${b} ${} $")
    × IsSplit (pieces outside "a ${b} ${} $")
pieces-IsSplit_example = pieces-IsSplit "a ${b} ${} $"

abbrev no_environ : String → Option String
no_environ name = none

abbrev same_text : String → String
same_text s = s

abbrev shown : ConfigValue → String
shown (text s) = s
shown _ = "?"

unfoldable referring : Section
referring =
    entry "home" (text "/srv")
      (entry "logs" (text "${home}/log") (entry "loop" (text "${loop}") end))

resolve_placeholders-suc_example :
    resolve_placeholders no_environ same_text shown referring 3 "${logs}/x" ≡ ok "/srv/log/x"
unfolding resolve_placeholders replace replace_unless replace_by resolve_again substitute prepend
    join pieces split_default split walk child lookup referring contains_placeholder contains_from
    cat
resolve_placeholders-suc_example =
    resolve_placeholders-suc no_environ same_text shown referring 2 "${logs}/x" "/srv/log/x" refl

circle_refused : get no_environ same_text shown referring "loop" null ≡ err value_error
unfolding get env_key remove_prefix strip_prefix with_underscores resolve_placeholders replace
    replace_unless replace_by resolve_again substitute prepend join pieces split_default split walk
    child lookup referring contains_placeholder contains_from cat
circle_refused = refl
