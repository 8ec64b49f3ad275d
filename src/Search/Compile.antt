-- ===== src/Search/Compile.antt =====
-- apps/cms/server/utils/compileSearchFilter.ts: one filter, compiled to a clause of the search engine.
-- A name of the runtime's object prototype is no field of the record of types.
mod Clauses
unfoldable pub use Clauses.*
use Prim.Native.Char.{code}
use Prim.Native.String.{◌++◌ as ◌<>◌}
use boject_cms.Common.{
  ℕ, String, ◌==◌, leb, Bool, true, false, ◌&&◌, ◌||◌, List, [], ◌∷◌, map, Option, none, some,
  if◌then◌else◌,
}
use boject_cms.FieldType.{
  FieldTypeName, entry_title, slug, text, textarea, number, boolean, datetime, select, richtext,
  relation, multirelation, image,
}
use boject_cms.Query.Operators.{Arity, zero, one, two, many, is_operator_allowed, operator_arity}
use boject_cms.Query.SystemFields.{SystemField, is_system_field_id, get_system_field}
use boject_cms.Search.Literal.{meili_literal}

-- The test of `^[a-z][a-zA-Z0-9]*$`.
abbrev is_lower : ℕ → Bool
is_lower c = leb b'a' c && leb c b'z'

abbrev is_letter_or_digit : ℕ → Bool
is_letter_or_digit c = is_lower c || leb b'A' c && leb c b'Z' || leb b'0' c && leb c b'9'

abbrev pub is_camel_rest : String → Bool
is_camel_rest String.[] = true
is_camel_rest (String.◌∷◌ c cs) = is_letter_or_digit (code c) && is_camel_rest cs

unfoldable pub is_field_id : String → Bool
is_field_id String.[] = false
is_field_id (String.◌∷◌ c cs) = is_lower (code c) && is_camel_rest cs

-- The type of a field and its path, or why the field is refused.
pub data Target : Type 0 where
  target : Option FieldTypeName → String → Target
  no_target : SearchInputError → Target

abbrev pub system_target : String → Option SystemField → Target
system_target field none = no_target (unknown_system_field field)
system_target field (some sys) = target (some sys.type) sys.engine_path

abbrev typed_path : String → Option FieldTypeName → String
typed_path field (some entry_title) = "entryTitle"
typed_path field _ = "fields." <> field

unfoldable pub resolve_target : String → (String → Option FieldTypeName) → Target
resolve_target field field_types =
    if is_system_field_id field
    then system_target field (get_system_field field)
    else if is_field_id field
    then target (field_types field) (typed_path field (field_types field))
    else no_target (invalid_filter_field field)

-- The check of the number of values.
unfoldable pub arity_error : Arity → String → String → List String → Option SearchInputError
arity_error zero op field [] = none
arity_error zero op field (_ ∷ _) = some (takes_no_value op field)
arity_error one op field (_ ∷ []) = none
arity_error one op field [] = some (needs_one op field)
arity_error one op field (_ ∷ _ ∷ _) = some (needs_one op field)
arity_error two op field (_ ∷ _ ∷ []) = none
arity_error two op field [] = some (needs_two op field)
arity_error two op field (_ ∷ []) = some (needs_two op field)
arity_error two op field (_ ∷ _ ∷ _ ∷ _) = some (needs_two op field)
arity_error many op field [] = some (needs_some op field)
arity_error many op field (_ ∷ _) = none

abbrev pub is_presence : String → Bool
is_presence op = op == "isNotSet" || op == "isSet"

unfoldable pub presence_clause : String → String → String → Result
presence_clause field op path =
    if is_system_field_id field
    then refused (not_on_system_field op field)
    else if op == "isNotSet"
    then clause (
        "("
        <> (path <> (" IS NULL OR " <> (path <> (" IS EMPTY OR " <> (path <> " NOT EXISTS)"))))))
    else clause (
        "("
        <> (path
            <> (" EXISTS AND " <> (path <> (" IS NOT NULL AND " <> (path <> " IS NOT EMPTY)"))))))

abbrev unscoped_clause : String → String → List String → Result
unscoped_clause path field (v ∷ []) = clause (path <> (" = " <> meili_literal v))
unscoped_clause path field _ = refused (needs_one_unscoped field)

abbrev checked_clause :
    Parsing
    → FieldTypeName
    → String
    → String
    → List String
    → String
    → Option SearchInputError
    → Result
checked_clause p type path op values field (some e) = refused e
checked_clause p type path op values field none =
    if is_presence op
    then presence_clause field op path
    else type_clause p type path op values field

-- The clause of a target that was found.
unfoldable pub target_clause : Parsing → String → String → List String → Target → Result
target_clause p field op values (no_target e) = refused e
target_clause p field op values (target none path) =
    if op == "eq" then unscoped_clause path field values else refused (requires_scope op field)
target_clause p field op values (target (some type) path) =
    if is_operator_allowed type op
    then checked_clause p type path op values field
        (arity_error (operator_arity op) op field values)
    else refused (not_valid op field)

-- `filter.op ?? OPERATORS.EQ`.
abbrev pub operator_or_eq : Option String → String
operator_or_eq none = "eq"
operator_or_eq (some op) = op

unfoldable pub compile_search_filter :
    Parsing → SearchFilter → (String → Option FieldTypeName) → Result
compile_search_filter p filter field_types =
    target_clause p filter.field (operator_or_eq filter.op) (value_list filter.values filter.value)
      (resolve_target filter.field field_types)
