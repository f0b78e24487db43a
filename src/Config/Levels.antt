-- ===== src/Config/Levels.antt =====
-- core/config.py: the limit of levels of a placeholder's resolution.
use Prim.Native.String.{[] as empty, ◌∷◌ as char_then}
use pyfly.Common.{
  ℕ, zero, suc, String, Option, none, some, [], ◌∷◌, ◌≡◌, refl, ap, ◌∙◌, arith, Bool-cases,
}
use pyfly.Common.Effects.{Result, ok, err}
use pyfly.Config.Values.{ConfigValue, section, Section, walk}
use pyfly.Config.Texts.{literal, reference, outside, pieces}
use pyfly.Config.Keys.{split, split_default, contains_placeholder}
use pyfly.Config.Reading.{
  prepend, join, substitute, resolve_again, replace_by, replace_unless, replace,
  resolve_placeholders,
}

-- The second gives whatever the first gives.
abbrev IsExtended : {A B : Type 0} → (f g : A → Result B) → Type 0
IsExtended {A} {B} f g = (a : A) (b : B) → f a ≡ ok b → g a ≡ ok b

prepend-ok :
    (s r : String) (rest rest' : Result String)
    → ((t : String) → rest ≡ ok t → rest' ≡ ok t)
    → prepend s rest ≡ ok r
    → prepend s rest' ≡ ok r
unfolding prepend
prepend-ok s r (ok t) rest' more given = ap (prepend s) (more t refl) ∙ given
prepend-ok s r (err e) rest' more given = cc

join-ok :
    (first first' rest rest' : Result String) (r : String)
    → ((t : String) → first ≡ ok t → first' ≡ ok t)
    → ((t : String) → rest ≡ ok t → rest' ≡ ok t)
    → join first rest ≡ ok r
    → join first' rest' ≡ ok r
unfolding join
join-ok (ok s) first' rest rest' r more mores given =
    ap (λ x. join x rest') (more s refl) ∙ prepend-ok s r rest rest' mores given
join-ok (err e) first' rest rest' r more mores given = cc

substitute-IsExtended :
    (f g : String → Result String) → IsExtended f g → IsExtended (substitute f) (substitute g)
unfolding substitute
substitute-IsExtended f g more [] r given = given
substitute-IsExtended f g more (literal c ∷ ps) r given =
    prepend-ok (char_then c empty) r (substitute f ps) (substitute g ps)
      (substitute-IsExtended f g more ps) given
substitute-IsExtended f g more (reference inner ∷ ps) r given =
    join-ok (f inner) (g inner) (substitute f ps) (substitute g ps) r (more inner)
      (substitute-IsExtended f g more ps) given

module _ (environ : String → Option String) (upper : String → String)
    (str_of : ConfigValue → String) (data_of : Section) where
  replace_unless-ok :
      (f g : String → Result String) (o : Option String) (found : Option ConfigValue)
      (default : Option String) (r : String)
      → IsExtended f g
      → replace_unless environ upper str_of data_of f o found default ≡ ok r
      → replace_unless environ upper str_of data_of g o found default ≡ ok r
  unfolding replace_unless replace_by resolve_again
  replace_unless-ok f g (some env_val) found default r more given = given
  replace_unless-ok f g none none (some d) r more given = given
  replace_unless-ok f g none none none r more given = cc
  replace_unless-ok f g none (some v) default r more given =
      ground (arith, more (str_of v) r, Bool-cases (contains_placeholder (str_of v)))

  -- A value that is resolved with some levels left is resolved to the same with one more: the limit turns
  -- a result into an error, and never into another result.
  pub resolve_placeholders-suc :
      (levels : ℕ) (value r : String)
      → resolve_placeholders environ upper str_of data_of levels value ≡ ok r
      → resolve_placeholders environ upper str_of data_of (suc levels) value ≡ ok r
  unfolding resolve_placeholders replace
  resolve_placeholders-suc zero value r given = cc
  resolve_placeholders-suc (suc levels) value r given =
      substitute-IsExtended
        (replace environ upper str_of data_of
          (resolve_placeholders environ upper str_of data_of levels))
        (replace environ upper str_of data_of
          (resolve_placeholders environ upper str_of data_of (suc levels)))
        (λ inner s found.
          replace_unless-ok (resolve_placeholders environ upper str_of data_of levels)
            (resolve_placeholders environ upper str_of data_of (suc levels))
            (environ (split_default inner).0)
            (walk (split (split_default inner).0) (section data_of)) (split_default inner).1 s
            (resolve_placeholders-suc levels) found)
        (pieces outside value) r given
