-- ===== src/Search/Offered.antt =====
-- The palette and the compiler: what the palette offers for a field, the compiler accepts.
use boject_cms.Common.{
  String, ◌==◌, true, false, ◌&&◌, ◌≡◌, sym, ◌∙◌, any, all, Option, some, arith,
}
use mathlib.Core.Path.{subst}
use boject_cms.FieldType.{FieldTypeName}
use boject_cms.Query.Operators.{OperatorFlags, available_operators, operator_arity}
use boject_cms.Query.OperatorLaws.{has_registry, available-allowed}
use boject_cms.Query.SystemFields.{is_system_field_id}
use boject_cms.Search.Compile.{
  Parsing, SearchFilter, value_list, target, resolve_target, is_presence, operator_or_eq,
  compile_search_filter,
}
use boject_cms.Search.Switch.{is_clause, count_fits, value_fits}
use boject_cms.Search.Grammar.{target_accepts}
use boject_cms.Search.Acceptance.{resolved_lem}

-- Where a field resolves to a type with a registry entry, every operator that the palette offers for
-- the type, with as many values as it takes, each of which reads as the type, compiles to a clause;
-- a system field is not asked whether it is set.
pub compile_search_filter-available_operators :
    (p : Parsing) (filter : SearchFilter) (field_types : String → Option FieldTypeName)
    (type : FieldTypeName) (path : String) (flags : OperatorFlags)
    → resolve_target filter.field field_types ≡ target (some type) path
    → has_registry type ≡ true
    → any (λ o. o.id == operator_or_eq filter.op) (available_operators type flags) ≡ true
    → count_fits (operator_arity (operator_or_eq filter.op)) (value_list filter.values filter.value)
      ≡ true
    → all (value_fits p type) (value_list filter.values filter.value) ≡ true
    → (is_presence (operator_or_eq filter.op) && is_system_field_id filter.field) ≡ false
    → is_clause (compile_search_filter p filter field_types) ≡ true
compile_search_filter-available_operators p filter field_types type path flags r g o c v s =
    let op = operator_or_eq filter.op in
    let values = value_list filter.values filter.value in
    let allowed = available-allowed type flags op g o in
    let accepted : target_accepts p filter.field op values (target (some type) path) ≡ true =
      ground (arith, allowed, c, v, s) in
    (resolved_lem p filter field_types).0
    ∙ subst (λ t. target_accepts p filter.field op values t ≡ true) (sym r) accepted
