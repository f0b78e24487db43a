-- ===== src/Config/Sources.antt =====
-- core/config.py: the files that a configuration is loaded from, and their order. A file that is there is
-- given by its content; a file that cannot be parsed is left out.
use pyfly.Common.{
  String, Bool, Option, none, some, List, [], ◌∷◌, ◌++◌, ◌≡◌, refl, sym, ap, ◌∙◌, All,
  if◌then◌else◌, Option-cases, inl, inr,
}
use pyfly.Common.Texts.{cat}
use pyfly.Config.Values.{ConfigValue, section, Section, end, merge, walk, present, IsProperSection}
use pyfly.Config.Layers.{Verdict, silent, leaf, decide, decided, walk-merge}

pub record Loaded : Type 0 where
  pub data_of : Section
  pub loaded_sources : List String

-- A path that may be loaded, and what it is listed as.
pub record Candidate : Type 0 where
  pub path : String
  pub label : String

abbrev config_file : (dir stem ext : String) → Candidate
unfolding cat
config_file dir stem ext =
    let path = cat dir (cat "/" (cat stem ext)) in record { path = path; label = path }

abbrev profile_file : (profile dir ext : String) → Candidate
unfolding cat
profile_file profile dir ext =
    let path = cat dir (cat "/pyfly-" (cat profile ext)) in
    record { path = path; label = cat path (cat " (profile: " (cat profile ")")) }

abbrev config_dir : String → String
unfolding cat
config_dir base_dir = cat base_dir "/config"

unfoldable pub profile_files : String → List String → List Candidate
unfolding profile_file config_dir
profile_files base_dir [] = []
profile_files base_dir (profile ∷ profiles) =
    profile_file profile (config_dir base_dir) ".yaml"
    ∷ profile_file profile (config_dir base_dir) ".toml"
    ∷ profile_file profile base_dir ".yaml"
    ∷ profile_file profile base_dir ".toml"
    ∷ profile_files base_dir profiles

-- The candidates of from_sources, in their order.
unfoldable pub candidates : String → List String → List Candidate
unfolding config_file config_dir profile_files
candidates base_dir profiles =
    config_file (config_dir base_dir) "pyfly" ".yaml"
    ∷ config_file (config_dir base_dir) "pyfly" ".toml"
    ∷ config_file base_dir "pyfly" ".yaml"
    ∷ config_file base_dir "pyfly" ".toml"
    ∷ profile_files base_dir profiles

module _ (files : String → Option Section) where
  abbrev load_found : Candidate → Option Section → Loaded → Loaded
  unfolding merge
  load_found candidate none loaded = loaded
  load_found candidate (some content) loaded = record {
    data_of = merge loaded.data_of content;
    loaded_sources = loaded.loaded_sources ++ candidate.label ∷ [];
  }

  unfoldable pub load : List Candidate → Loaded → Loaded
  unfolding load_found
  load [] loaded = loaded
  load (candidate ∷ candidates) loaded =
      load candidates (load_found candidate (files candidate.path) loaded)

  abbrev pub defaults : Section → Bool → Loaded
  defaults framework_defaults load_defaults =
      if load_defaults
      then record {
        data_of = framework_defaults;
        loaded_sources = "pyfly-defaults.yaml (framework defaults)" ∷ [];
      }
      else record { data_of = end; loaded_sources = [] }

  unfoldable pub from_sources : Section → String → List String → Bool → Loaded
  unfolding load candidates
  from_sources framework_defaults base_dir profiles load_defaults =
      load (candidates base_dir profiles) (defaults framework_defaults load_defaults)

  -- What a file says of a key; one that is not there says nothing.
  abbrev said : List String → Option Section → Verdict
  unfolding decide
  said parts none = silent
  said parts (some content) = decide parts (section content)

  unfoldable pub says : List String → Candidate → Verdict
  unfolding said
  says parts candidate = said parts (files candidate.path)

  module _
      (proper : (path : String) (content : Section)
        → files path ≡ some content
        → IsProperSection content) where
    load-step :
        (parts : List String) (candidate : Candidate) (loaded : Loaded)
        → walk parts (section (load_found candidate (files candidate.path) loaded).data_of)
          ≡ decided (says parts candidate) (walk parts (section loaded.data_of))
    unfolding load_found says decided
    load-step parts candidate loaded = elim (Option-cases (files candidate.path)) [
      | inl missing ↦
          ap (λ o. walk parts (section (load_found candidate o loaded).data_of)) missing
          ∙ sym (ap (λ o. decided (said parts o) (walk parts (section loaded.data_of))) missing)
      | inr (content, found) ↦
          ap (λ o. walk parts (section (load_found candidate o loaded).data_of)) found
          ∙ (walk-merge parts loaded.data_of content (proper candidate.path content found)
              ∙ sym (ap (λ o. decided (said parts o) (walk parts (section loaded.data_of))) found))
    ]

    load-append :
        (before after : List Candidate) (loaded : Loaded)
        → load (before ++ after) loaded ≡ load after (load before loaded)
    unfolding load
    load-append [] after loaded = refl
    load-append (candidate ∷ before) after loaded =
        load-append before after (load_found candidate (files candidate.path) loaded)

    load-silent :
        (parts : List String) (after : List Candidate) (loaded : Loaded)
        → All (λ candidate. says parts candidate ≡ silent) after
        → walk parts (section (load after loaded).data_of) ≡ walk parts (section loaded.data_of)
    unfolding load decided
    load-silent parts [] loaded quiet = refl
    load-silent parts (candidate ∷ after) loaded (first, rest) =
        load-silent parts after (load_found candidate (files candidate.path) loaded) rest
        ∙ (load-step parts candidate loaded
            ∙ ap (λ v. decided v (walk parts (section loaded.data_of))) first)

    -- The last file that says anything of a key decides: a value other than a dict in it is what the loaded
    -- configuration holds there, whatever the files before it and the framework's defaults say.
    pub from_sources-says :
        (parts : List String) (framework_defaults : Section) (base_dir : String)
        (profiles : List String) (load_defaults : Bool) (before after : List Candidate)
        (candidate : Candidate) (v : ConfigValue)
        → candidates base_dir profiles ≡ before ++ candidate ∷ after
        → says parts candidate ≡ leaf v
        → All (λ later. says parts later ≡ silent) after
        → walk parts
            (section (from_sources framework_defaults base_dir profiles load_defaults).data_of)
          ≡ present v
    unfolding from_sources load decided
    from_sources-says parts framework_defaults base_dir profiles load_defaults before after
          candidate v order said_here quiet =
        let start = defaults framework_defaults load_defaults in
        let earlier = load before start in
        ap (λ cs. walk parts (section (load cs start).data_of)) order
        ∙ (ap (λ l. walk parts (section l.data_of)) (load-append before (candidate ∷ after) start)
            ∙ (load-silent parts after (load_found candidate (files candidate.path) earlier) quiet
                ∙ (load-step parts candidate earlier
                    ∙ ap (λ x. decided x (walk parts (section earlier.data_of))) said_here)))
