-- ===== src/Config/Reading.antt =====
-- core/config.py and core/value.py: reading a configuration. `environ` is os.environ, `upper` str.upper and
-- `str_of` str of a value.
use Prim.Native.Char.{char}
use Prim.Native.String.{[] as empty, ◌∷◌ as char_then}
use pyfly.Common.{ℕ, zero, suc, String, Option, none, some, List, [], ◌∷◌, if◌then◌else◌}
use pyfly.Common.Effects.{value_error, key_error, Result, ok, err}
use pyfly.Config.Values.{ConfigValue, null, text, scalar, section, Section, end, lookup, walk}
use pyfly.Common.Texts.{cat, is_char}
use pyfly.Config.Texts.{Piece, literal, reference, outside, pieces}
use pyfly.Config.Keys.{split, split_default, contains_placeholder, env_key}

unfoldable pub prepend : String → Result String → Result String
unfolding cat
prepend s (ok rest) = ok (cat s rest)
prepend s (err e) = err e

unfoldable pub join : Result String → Result String → Result String
unfolding prepend
join (ok s) rest = prepend s rest
join (err e) rest = err e

-- _PLACEHOLDER_RE.sub(_replace, value), on the pieces of the value
unfoldable pub substitute : (String → Result String) → List Piece → Result String
unfolding join
substitute replace [] = ok empty
substitute replace (literal c ∷ ps) = prepend (char_then c empty) (substitute replace ps)
substitute replace (reference inner ∷ ps) = join (replace inner) (substitute replace ps)

module _ (environ : String → Option String) (upper : String → String)
    (str_of : ConfigValue → String) (data_of : Section) where
  unfoldable pub resolve_again : (String → Result String) → String → Result String
  unfolding contains_placeholder
  resolve_again resolve s = if contains_placeholder s then resolve s else ok s

  unfoldable pub replace_by :
      (String → Result String) → Option ConfigValue → Option String → Result String
  unfolding resolve_again
  replace_by resolve (some v) default = resolve_again resolve (str_of v)
  replace_by resolve none (some default) = ok default
  replace_by resolve none none = err value_error

  unfoldable pub replace_unless :
      (String → Result String) → Option String → Option ConfigValue → Option String → Result String
  unfolding replace_by
  replace_unless resolve (some env_val) found default = ok env_val
  replace_unless resolve none found default = replace_by resolve found default

  -- `_replace`, given what resolves a value one level deeper.
  unfoldable pub replace : (String → Result String) → String → Result String
  unfolding replace_unless split_default split walk
  replace resolve inner =
      let (ref_key, default) = split_default inner in
      replace_unless resolve (environ ref_key) (walk (split ref_key) (section data_of)) default

  -- _resolve_placeholders with `levels` levels left, of 11.
  unfoldable pub resolve_placeholders : (levels : ℕ) → String → Result String
  unfolding replace substitute pieces
  resolve_placeholders zero value = err value_error
  resolve_placeholders (suc levels) value =
      substitute (replace (resolve_placeholders levels)) (pieces outside value)

  abbrev as_text : Result String → Result ConfigValue
  as_text (ok s) = ok (text s)
  as_text (err e) = err e

  unfoldable resolve_found : ConfigValue → Option ConfigValue → Result ConfigValue
  unfolding contains_placeholder resolve_placeholders
  resolve_found default none = ok default
  resolve_found default (some (text s)) =
      if contains_placeholder s then as_text (resolve_placeholders 11 s) else ok (text s)
  resolve_found default (some v) = ok v

  abbrev overridden : Option String → Result ConfigValue → Result ConfigValue
  overridden (some env_val) found = ok (text env_val)
  overridden none found = found

  -- Config.get
  unfoldable pub get : String → ConfigValue → Result ConfigValue
  unfolding env_key resolve_found walk split
  get key default =
      overridden (environ (env_key upper key))
        (resolve_found default (walk (split key) (section data_of)))

  abbrev or_default : String → Result ConfigValue → Result ConfigValue
  or_default default (ok null) = ok (text default)
  or_default default (ok (text s)) = ok (text s)
  or_default default (ok (scalar n)) = ok (scalar n)
  or_default default (ok (section d)) = ok (section d)
  or_default default (err e) = err e

  abbrev or_key_error : Result ConfigValue → Result ConfigValue
  or_key_error (ok null) = err key_error
  or_key_error (ok (text s)) = ok (text s)
  or_key_error (ok (scalar n)) = ok (scalar n)
  or_key_error (ok (section d)) = ok (section d)
  or_key_error (err e) = err e

  abbrev value_of : String → Option String → Result ConfigValue
  unfolding get
  value_of inner (some default) = or_default default (get (split_default inner).0 null)
  value_of inner none = or_key_error (get inner null)

  -- The inner text of an expression that is one placeholder; a newline may end it.
  abbrev sole : List Piece → Option String
  sole (reference inner ∷ []) = some inner
  sole (reference inner ∷ literal c ∷ []) = if is_char (char 10 tt) c then some inner else none
  sole _ = none

  abbrev resolve_sole : String → Option String → Result ConfigValue
  unfolding value_of split_default
  resolve_sole expression none = ok (text expression)
  resolve_sole expression (some inner) = value_of inner (split_default inner).1

  -- Value.resolve
  unfoldable pub resolve_value : String → Result ConfigValue
  unfolding resolve_sole pieces
  resolve_value expression = resolve_sole expression (sole (pieces outside expression))

-- get_section: a missing key is as an empty dict.
abbrev child_or_end : String → Section → ConfigValue
unfolding lookup
child_or_end part d = elim (lookup part d) [ none ↦ section end | some v ↦ v ]

unfoldable section_at : List String → ConfigValue → Section
unfolding child_or_end
section_at [] (section d) = d
section_at [] _ = end
section_at (part ∷ parts) (section d) = section_at parts (child_or_end part d)
section_at (part ∷ parts) _ = end

unfoldable pub get_section : String → Section → Section
unfolding section_at split
get_section prefix data_of = section_at (split prefix) (section data_of)
