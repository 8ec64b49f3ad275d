-- ===== src/Search/Compile/Clauses.antt =====
-- apps/cms/server/utils/compileSearchFilter.ts: the clauses of the search engine
-- for the type of a field. A refusal is told by its kind and the texts of its message. What the
-- runtime makes of a text is the record Parsing.
use Prim.Native.String.{◌++◌ as ◌<>◌}
use Prim.Native.Char.{code}
use boject_cms.Common.{
  ℕ, eqb, leb, Bool, true, ◌&&◌, String, ◌==◌, ◌||◌, List, [], ◌∷◌, map, Option, none, some,
  if◌then◌else◌,
}
use boject_cms.FieldType.{
  FieldTypeName, entry_title, slug, text, textarea, number, boolean, datetime, select, richtext,
  relation, multirelation, image,
}
use boject_cms.Search.Literal.{meili_literal}

-- `Number(raw)` and `new Date(raw).getTime()` where they are finite, each as its decimal text.
pub record Parsing : Type 0 where
  pub number_text : String → Option String
  pub time_text : String → Option String

-- One constructor for each message. The last is the runtime's, where a value that is not there is
-- used.
pub data SearchInputError : Type 0 where
  expects_number expects_date expects_boolean : String → String → SearchInputError
  not_valid : String → String → SearchInputError
  unknown_system_field invalid_filter_field : String → SearchInputError
  requires_scope needs_two needs_some needs_one takes_no_value : String → String → SearchInputError
  needs_one_unscoped : String → SearchInputError
  not_on_system_field : String → String → SearchInputError
  not_filterable : String → SearchInputError
  type_error : SearchInputError

pub data Result : Type 0 where
  clause : String → Result
  refused : SearchInputError → Result

pub record SearchFilter : Type 0 where
  pub field : String
  pub op : Option String
  pub value : Option String
  pub values : Option (List String)

abbrev pub value_list : Option (List String) → Option String → List String
value_list (some vs) v = vs
value_list none (some v) = v ∷ []
value_list none none = []

-- A clause over `values[0]`, and one over `values[0]` and `values[1]`.
abbrev with_first : List String → (String → Result) → Result
with_first [] f = refused type_error
with_first (v ∷ _) f = f v

abbrev with_second : List String → (String → String → Result) → Result
with_second (v ∷ w ∷ _) f = f v w
with_second _ f = refused type_error

abbrev with_text : Option String → SearchInputError → (String → Result) → Result
with_text none e f = refused e
with_text (some s) e f = f s

-- A white space character of `String.prototype.trim`.
abbrev is_space : ℕ → Bool
is_space c =
    leb 9 c && leb c 13
    || eqb c 32
    || eqb c 160
    || eqb c 5760
    || leb 8192 c && leb c 8202
    || eqb c 8232
    || eqb c 8233
    || eqb c 8239
    || eqb c 8287
    || eqb c 12288
    || eqb c 65279

-- `raw.trim() === ''`.
unfoldable pub is_blank : String → Bool
is_blank String.[] = true
is_blank (String.◌∷◌ c cs) = is_space (code c) && is_blank cs

abbrev number_literal : Parsing → String → String → (String → Result) → Result
number_literal p raw field f =
    if is_blank raw
    then refused (expects_number field raw)
    else with_text (p.number_text raw) (expects_number field raw) f

-- `datetimeToEpoch` on a text.
abbrev pub datetime_to_epoch : Parsing → String → Option String
datetime_to_epoch p raw = if raw == "" then none else p.time_text raw

abbrev epoch_literal : Parsing → String → String → (String → Result) → Result
epoch_literal p raw field f = with_text (datetime_to_epoch p raw) (expects_date field raw) f

abbrev boolean_literal : String → String → (String → Result) → Result
boolean_literal raw field f =
    if raw == "true" || raw == "false" then f raw else refused (expects_boolean field raw)

abbrev number_symbol : String → String
number_symbol op =
    if op == "eq"
    then "="
    else if op == "neq"
    then "!="
    else if op == "gt"
    then ">"
    else if op == "gte"
    then ">="
    else if op == "lt"
    then "<"
    else if op == "lte"
    then "<="
    else "undefined"

-- `xs.join(separator)`.
abbrev pub joined : String → List String → String
joined separator [] = ""
joined separator (s ∷ []) = s
joined separator (s ∷ t ∷ ss) = s <> (separator <> joined separator (t ∷ ss))

abbrev pub text_clause : String → String → String → String → Result
text_clause path op v field =
    if op == "eq"
    then clause (path <> (" = " <> meili_literal v))
    else if op == "neq"
    then clause (path <> (" != " <> meili_literal v))
    else if op == "contains"
    then clause (path <> (" CONTAINS " <> meili_literal v))
    else if op == "startsWith"
    then clause (path <> (" STARTS WITH " <> meili_literal v))
    else refused (not_valid op field)

abbrev compared : Parsing → String → String → List String → String → Result
compared p path symbol values field =
    with_first values λ v. epoch_literal p v field λ t. clause (path <> (symbol <> t))

abbrev ranged : Parsing → String → List String → String → Result
ranged p path values field = with_second values λ v w.
    epoch_literal p v field
      λ t. epoch_literal p w field λ u. clause (path <> (" " <> (t <> (" TO " <> u))))

abbrev pub date_clause : Parsing → String → String → List String → String → Result
date_clause p path op values field =
    if op == "eq"
    then compared p path " = " values field
    else if op == "before"
    then compared p path " < " values field
    else if op == "after"
    then compared p path " > " values field
    else if op == "between"
    then ranged p path values field
    else refused (not_valid op field)

abbrev first_quoted : String → String → List String → Result
first_quoted path symbol values =
    with_first values λ v. clause (path <> (symbol <> meili_literal v))

abbrev any_of : String → List String → Result
any_of path values = clause (path <> (" IN [" <> (joined ", " (map meili_literal values) <> "]")))

abbrev pub enum_clause : String → String → List String → String → Result
enum_clause path op values field =
    if op == "eq"
    then first_quoted path " = " values
    else if op == "neq"
    then first_quoted path " != " values
    else if op == "in"
    then any_of path values
    else refused (not_valid op field)

abbrev pub multirelation_clause : String → String → List String → String → Result
multirelation_clause path op values field =
    if op == "eq"
    then first_quoted path " = " values
    else if op == "containsAny"
    then any_of path values
    else if op == "containsAll"
    then clause
        ("(" <> (joined " AND " (map (λ v. path <> (" = " <> meili_literal v)) values) <> ")"))
    else refused (not_valid op field)

abbrev pub number_clause : Parsing → String → String → List String → String → Result
number_clause p path op values field =
    with_first values
      λ v. number_literal p v field λ n. clause (path <> (" " <> (number_symbol op <> (" " <> n))))

abbrev pub relation_clause : String → String → List String → Result
relation_clause path op values =
    if op == "neq" then first_quoted path " != " values else first_quoted path " = " values

abbrev pub boolean_clause : String → List String → String → Result
boolean_clause path values field =
    with_first values λ v. boolean_literal v field λ b. clause (path <> (" = " <> b))

-- The switch on the type.
unfoldable pub type_clause :
    Parsing → FieldTypeName → String → String → List String → String → Result
type_clause p text path op values field = with_first values λ v. text_clause path op v field
type_clause p textarea path op values field = with_first values λ v. text_clause path op v field
type_clause p slug path op values field = with_first values λ v. text_clause path op v field
type_clause p entry_title path op values field = with_first values λ v. text_clause path op v field
type_clause p number path op values field = number_clause p path op values field
type_clause p datetime path op values field = date_clause p path op values field
type_clause p select path op values field = enum_clause path op values field
type_clause p relation path op values field = relation_clause path op values
type_clause p multirelation path op values field = multirelation_clause path op values field
type_clause p boolean path op values field = boolean_clause path values field
type_clause p richtext path op values field = refused (not_filterable field)
type_clause p image path op values field = refused (not_filterable field)
