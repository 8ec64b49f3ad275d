-- ===== src/Search/LiteralLaws.antt =====
-- apps/cms/server/utils/compileSearchFilter.ts: no two values share a literal.
use Prim.Native.Char.{Char, code}
use Prim.Native.String.{◌++◌ as ◌<>◌}
use mathlib.Core.Option
use text.Mathlib.TextLemmas.{nil-append, cons-append, append_assoc}
use boject_cms.Common.{
  String, Bool, true, false, ◌≡◌, refl, sym, Option, none, some, arith, ap, ◌∙◌, if◌then◌else◌,
  Bool-cases, inl, inr,
}
use boject_cms.Search.Literal.{
  is_backslash, is_quote, double_backslashes, escape_quotes, meili_literal,
}

-- A character in front of what was read.
abbrev with_char : Char → Option (String × String) → Option (String × String)
with_char c = Option.map (λ r. (String.◌∷◌ c r.0, r.1))

-- A left inverse of the escaping, by which the proof tells values apart: the value and the text behind
-- its literal. The flag says that a backslash stands before.
body_of : Bool → String → Option (String × String)
body_of _ String.[] = none
body_of true (String.◌∷◌ c cs) = with_char c (body_of false cs)
body_of false (String.◌∷◌ c cs) =
    let escaped = body_of true cs in
    let plain = with_char c (body_of false cs) in
    if is_backslash (code c) then escaped else if is_quote (code c) then some ("", cs) else plain

value_of : String → Option (String × String)
value_of String.[] = none
value_of (String.◌∷◌ c cs) = if is_quote (code c) then body_of false cs else none

quote_append : (rest : String) → "\"" <> rest ≡ String.◌∷◌ "\"" rest
quote_append rest = cons-append "\"" "" rest ∙ ap (λ r. String.◌∷◌ "\"" r) (nil-append rest)

body_of_escaped :
    (v rest : String)
    → body_of false (escape_quotes (double_backslashes v) <> ("\"" <> rest)) ≡ some (v, rest)
unfolding body_of double_backslashes escape_quotes
body_of_escaped String.[] rest = rw (nil-append ("\"" <> rest), quote_append rest) refl
body_of_escaped (String.◌∷◌ c cs) rest =
    let read = body_of_escaped cs rest in
    let end = "\"" <> rest in
    let behind = escape_quotes (double_backslashes cs) in
    elim (Bool-cases (is_backslash (code c))) [
      | inl b ↦
          let q : is_quote (code c) ≡ false = ground arith in
          rw (b, q, cons-append c (String.◌∷◌ c behind) end, cons-append c behind end, b, read) refl
      | inr b ↦ elim (Bool-cases (is_quote (code c))) [
        | inl q ↦
            rw (b, q, cons-append "\\" (String.◌∷◌ c behind) end, cons-append c behind end, read)
              refl
        | inr q ↦ rw (b, q, cons-append c behind end, b, q, read) refl
      ]
    ]

abbrev value_or : String → Option (String × String) → String
value_or default none = default
value_or default (some r) = r.0

abbrev rest_or : String → Option (String × String) → String
rest_or default none = default
rest_or default (some r) = r.1

value_of-meili_literal : (v rest : String) → value_of (meili_literal v <> rest) ≡ some (v, rest)
unfolding meili_literal value_of
value_of-meili_literal v rest =
    rw
      (
        append_assoc "\"" (escape_quotes (double_backslashes v) <> "\"") rest,
        append_assoc (escape_quotes (double_backslashes v)) "\"" rest,
      )
      (rw (quote_append (escape_quotes (double_backslashes v) <> ("\"" <> rest)))
        (body_of_escaped v rest))

-- Where two texts that each begin with the literal of a value are the same text, the values are the
-- same, and so is what follows the literals. So values that differ have literals that differ, and no
-- literal with text behind it reads as the literal of another value with other text behind it.
pub meili_literal_lem :
    (v w after_v after_w : String)
    → meili_literal v <> after_v ≡ meili_literal w <> after_w
    → (v ≡ w) × (after_v ≡ after_w)
meili_literal_lem v w after_v after_w same =
    let read =
      sym (value_of-meili_literal v after_v)
      ∙ ap value_of same
      ∙ value_of-meili_literal w after_w in
    (ap (value_or "") read, ap (rest_or "") read)
