-- ===== src/Search/Acceptance.antt =====
-- The compiler accepts the filters that are acceptable.
use boject_cms.Common.{
  String, Bool, true, false, ◌≡◌, refl, ◌∙◌, List, [], ◌∷◌, all, Option, none, some, if◌then◌else◌,
  arith, Bool-cases, inl, inr, ◌⊎◌,
}
use boject_cms.FieldType.{FieldTypeName}
use boject_cms.Query.Operators.{Arity, zero, one, two, many, is_operator_allowed, operator_arity}
use boject_cms.Query.SystemFields.{SystemField, is_system_field_id, get_system_field}
use boject_cms.Search.Compile.{
  Parsing, SearchInputError, refused, SearchFilter, value_list, Target, target, no_target,
  resolve_target, arity_error, is_presence, presence_clause, target_clause, operator_or_eq,
  compile_search_filter, system_target, is_field_id,
}
use boject_cms.Search.Grammar.{accepts, target_accepts, resolve_target-IsResolved}
use boject_cms.Search.Switch.{is_clause, is_fault, count_fits, value_fits, type_clause-Sound}

arity_error-count_fits :
    (arity : Arity) (op field : String) (values : List String)
    → ((count_fits arity values ≡ true) × (arity_error arity op field values ≡ none))
      ⊎ ((e : SearchInputError) × (count_fits arity values ≡ false)
          × (arity_error arity op field values ≡ some e)
          × (is_fault (refused e) ≡ false))
unfolding arity_error
arity_error-count_fits zero op field [] = inl (refl, refl)
arity_error-count_fits zero op field (_ ∷ _) = inr (_, ground arith, refl, refl)
arity_error-count_fits one op field [] = inr (_, refl, refl, refl)
arity_error-count_fits one op field (_ ∷ []) = inl (refl, refl)
arity_error-count_fits one op field (_ ∷ _ ∷ _) = inr (_, ground arith, refl, refl)
arity_error-count_fits two op field [] = inr (_, refl, refl, refl)
arity_error-count_fits two op field (_ ∷ []) = inr (_, refl, refl, refl)
arity_error-count_fits two op field (_ ∷ _ ∷ []) = inl (refl, refl)
arity_error-count_fits two op field (_ ∷ _ ∷ _ ∷ _) = inr (_, ground arith, refl, refl)
arity_error-count_fits many op field [] = inr (_, refl, refl, refl)
arity_error-count_fits many op field (_ ∷ _) = inl (ground arith, refl)

nullary-zero : (op : String) → is_presence op ≡ true → operator_arity op ≡ zero
unfolding operator_arity
nullary-zero op h = ground arith

all-none :
    (p : Parsing) (type : FieldTypeName) (values : List String)
    → count_fits zero values ≡ true
    → all (value_fits p type) values ≡ true
all-none p type [] h = refl
all-none p type (_ ∷ _) h = absurd (ground arith)

abbrev IsSoundTarget : Target → Type 0
IsSoundTarget (target _ _) = Unit
IsSoundTarget (no_target e) = is_fault (refused e) ≡ false

if-IsSoundTarget :
    (b : Bool) (t u : Target)
    → IsSoundTarget t
    → IsSoundTarget u
    → IsSoundTarget (if b then t else u)
if-IsSoundTarget true t u h k = h
if-IsSoundTarget false t u h k = k

system_target-IsSoundTarget :
    (field : String) (sys : Option SystemField) → IsSoundTarget (system_target field sys)
system_target-IsSoundTarget field none = refl
system_target-IsSoundTarget field (some sys) = tt

resolve_target-IsSoundTarget :
    (field : String) (field_types : String → Option FieldTypeName)
    → IsSoundTarget (resolve_target field field_types)
unfolding resolve_target
resolve_target-IsSoundTarget field field_types =
    if-IsSoundTarget (is_system_field_id field) _ _
      (system_target-IsSoundTarget field (get_system_field field))
      (if-IsSoundTarget (is_field_id field) _ _ tt refl)

target_clause-accepts :
    (p : Parsing) (field op : String) (values : List String) (t : Target)
    → IsSoundTarget t
    → (is_clause (target_clause p field op values t) ≡ target_accepts p field op values t)
      × (is_fault (target_clause p field op values t) ≡ false)
unfolding target_clause presence_clause
target_clause-accepts p field op values (no_target e) s = (refl, s)
target_clause-accepts p field op [] (target none path) s = ground arith
target_clause-accepts p field op (v ∷ []) (target none path) s = ground arith
target_clause-accepts p field op (v ∷ w ∷ vs) (target none path) s = ground arith
target_clause-accepts p field op values (target (some type) path) s =
    elim (Bool-cases (is_operator_allowed type op)) [
      | inr f ↦ rw (f) (refl, refl)
      | inl a ↦ elim (arity_error-count_fits (operator_arity op) op field values) [
        | inr e ↦ rw (a, e.1, e.2) (refl, e.3)
        | inl fits ↦ elim (Bool-cases (is_presence op)) [
          | inr typed ↦
              rw (a, fits.0, fits.1, typed)
                (type_clause-Sound p type path field op a values typed fits.0)
          | inl nullary ↦ ground (arith, all-none p type values, nullary-zero op nullary)
        ]
      ]
    ]

-- The same by the target that the code resolves.
pub resolved_lem :
    (p : Parsing) (filter : SearchFilter) (field_types : String → Option FieldTypeName)
    → (is_clause (compile_search_filter p filter field_types)
        ≡ target_accepts p filter.field
            (operator_or_eq filter.op)
            (value_list filter.values filter.value)
            (resolve_target filter.field field_types))
      × (is_fault (compile_search_filter p filter field_types) ≡ false)
unfolding compile_search_filter
resolved_lem p filter field_types =
    target_clause-accepts p filter.field (operator_or_eq filter.op)
      (value_list filter.values filter.value) (resolve_target filter.field field_types)
      (resolve_target-IsSoundTarget filter.field field_types)

-- The compiler turns a filter into a clause exactly when the filter is acceptable. The field is
-- `$status`, `$id` or `$entryKey`, or else a letter a to z with ASCII letters and digits behind it. A
-- field without a type takes equality with one value. Otherwise the operator is one of the type's,
-- the values are as many as it takes and each reads as the type, and no system field is asked whether
-- it is set. Where it refuses a filter, it is not for a value that is missing at the clause, nor for a
-- type that the switch does not know.
pub compile_search_filter-accepts :
    (p : Parsing) (filter : SearchFilter) (field_types : String → Option FieldTypeName)
    → (is_clause (compile_search_filter p filter field_types) ≡ accepts p filter field_types)
      × (is_fault (compile_search_filter p filter field_types) ≡ false)
compile_search_filter-accepts p filter field_types =
    let (taken, faultless) = resolved_lem p filter field_types in
    (
      taken
          ∙ resolve_target-IsResolved p (operator_or_eq filter.op)
              (value_list filter.values filter.value) field_types filter.field,
      faultless,
    )
