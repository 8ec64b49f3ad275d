-- ===== src/Search/Tests.antt =====
-- Instances at concrete filters.
use Prim.Native.String.{◌++◌ as ◌<>◌}
use boject_cms.Common.{
  String, ◌==◌, true, false, ◌≡◌, refl, [], ◌∷◌, Option, none, some, if◌then◌else◌,
}
use boject_cms.FieldType.{FieldTypeName, number, select}
use boject_cms.Query.Operators.{OperatorFlags, is_operator_allowed, operator_arity}
use boject_cms.Query.SystemFields.{is_system_field_id}
use boject_cms.Search.Literal.{double_backslashes, escape_quotes, meili_literal}
use boject_cms.Search.LiteralLaws.{meili_literal_lem}
use boject_cms.Search.Compile.{
  Parsing, SearchFilter, clause, type_clause, is_field_id, resolve_target, arity_error, is_blank,
  target_clause, compile_search_filter,
}
use boject_cms.Search.Switch.{is_clause, is_fault}
use boject_cms.Search.Grammar.{accepts}
use boject_cms.Search.Acceptance.{compile_search_filter-accepts}

-- A runtime that reads the texts `5` and `1970` alone.
abbrev parsing : Parsing
parsing = record {
  number_text = λ s. if s == "5" then some "5" else none;
  time_text = λ s. if s == "1970" then some "0" else none;
}

abbrev types : String → Option FieldTypeName
types f = if f == "price" then some number else if f == "kind" then some select else none

abbrev price_at_least : SearchFilter
price_at_least = record { field = "price"; op = some "gte"; value = some "5"; values = none }

abbrev kind_in : SearchFilter
kind_in = record {
  field = "kind";
  op = some "in";
  value = none;
  values = some ("a" ∷ "say \"b\"" ∷ []);
}

price_at_least_runs :
    compile_search_filter parsing price_at_least types ≡ clause "fields.price >= 5"
unfolding compile_search_filter resolve_target is_system_field_id is_field_id target_clause
    is_operator_allowed operator_arity arity_error type_clause is_blank
price_at_least_runs = refl

kind_in_runs :
    compile_search_filter parsing kind_in types ≡ clause "fields.kind IN [\"a\", \"say \\\"b\\\"\"]"
unfolding compile_search_filter resolve_target is_system_field_id is_field_id target_clause
    is_operator_allowed operator_arity arity_error type_clause meili_literal escape_quotes
    double_backslashes
kind_in_runs = refl

abbrev bracket : String
bracket = "]"

-- A value that tries to end its literal, and the same value put together from two.
meili_literal_lem_example : ("a\" OR \\" ≡ "a\" " <> "OR \\") × (bracket ≡ "]")
unfolding meili_literal escape_quotes double_backslashes
meili_literal_lem_example = meili_literal_lem "a\" OR \\" ("a\" " <> "OR \\") bracket "]" refl

-- A backslash before a quote, and a quote.
literals_apart : (meili_literal "\\" <> "\"" ≡ "\"\\\\\"\"") × (meili_literal "\"" ≡ "\"\\\"\"")
unfolding meili_literal escape_quotes double_backslashes
literals_apart = (refl, refl)

compile_search_filter-accepts_example :
    (is_clause (compile_search_filter parsing price_at_least types)
      ≡ accepts parsing price_at_least types)
    × (is_fault (compile_search_filter parsing price_at_least types) ≡ false)
compile_search_filter-accepts_example = compile_search_filter-accepts parsing price_at_least types

abbrev every_flag : OperatorFlags
every_flag = record { rich = true; multi_value = true; range = true; nullary = true }
