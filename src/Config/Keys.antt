-- ===== src/Config/Keys.antt =====
-- core/config.py: the keys of a configuration and the names of environment variables made of them.
use Prim.Native.Char.{Char, char}
use Prim.Native.String.{[] as empty, ◌∷◌ as char_then}
use pyfly.Common.{String, Bool, true, false, ◌&&◌, ◌||◌, Option, none, some, List, if◌then◌else◌}
use pyfly.Common.Texts.{is_char, cat, strip_prefix, split_on}
use pyfly.Config.Texts.{dollar_sign, open_brace}

abbrev dot : Char
dot = char 46 tt

abbrev dash : Char
dash = char 45 tt

abbrev underscore : Char
underscore = char 95 tt

abbrev colon : Char
colon = char 58 tt

-- text.split(".")
unfoldable pub split : String → List String
unfolding split_on
split s = split_on dot s

abbrev at_colon : Bool → Char → String → String × Option String → String × Option String
at_colon true c s rest = (empty, some s)
at_colon false c s (key, default) = (char_then c key, default)

-- inner.split(":", 1), where there is a colon
unfoldable pub split_default : String → String × Option String
split_default empty = (empty, none)
split_default (char_then c s) = at_colon (is_char colon c) c s (split_default s)

-- "${" in text, after a dollar sign or not
unfoldable pub contains_from : Bool → String → Bool
contains_from after_dollar empty = false
contains_from after_dollar (char_then c s) =
    after_dollar && is_char open_brace c || contains_from (is_char dollar_sign c) s

unfoldable pub contains_placeholder : String → Bool
unfolding contains_from
contains_placeholder s = contains_from false s

-- text.removeprefix(prefix)
unfoldable pub remove_prefix : (prefix text : String) → String
unfolding strip_prefix
remove_prefix prefix s = elim (strip_prefix prefix s) [ none ↦ s | some rest ↦ rest ]

-- .replace(".", "_").replace("-", "_")
unfoldable pub with_underscores : String → String
with_underscores empty = empty
with_underscores (char_then c s) =
    char_then (if is_char dot c || is_char dash c then underscore else c) (with_underscores s)

-- The name of the variable that overrides a key; `upper` is str.upper.
unfoldable pub env_key : (String → String) → String → String
unfolding remove_prefix with_underscores cat
env_key upper key = cat "PYFLY_" (with_underscores (upper (remove_prefix "pyfly." key)))
