-- ===== src/Search/Grammar.antt =====
-- apps/cms/server/utils/compileSearchFilter.ts: which filters are acceptable, stated apart from the code's
-- clauses, by the field that the filter names.
use Prim.Native.Char.{code}
use mathlib.Core.Path.{subst}
use boject_cms.Common.{
  ℕ, leb, ◌||◌, String, ◌==◌, Bool, true, false, ◌&&◌, not, ◌≡◌, refl, sym, ◌∙◌, eq_iff, List, [],
  ◌∷◌, all, Option, none, some, if◌then◌else◌, arith, Bool-cases, inl, inr, ◌⊎◌,
}
use boject_cms.FieldType.{FieldTypeName, select, text, slug}
use boject_cms.Query.Operators.{one, is_operator_allowed, operator_arity}
use boject_cms.Query.SystemFields.{is_system_field_id, get_system_field}
use boject_cms.Search.Compile.{
  Parsing, SearchFilter, value_list, Target, target, no_target, resolve_target, is_presence,
  operator_or_eq, is_field_id, is_camel_rest,
}
use boject_cms.Search.Switch.{count_fits, value_fits}

-- What a filter names: a system field of a type, a field of the content with its type, if that is
-- known, or nothing.
pub data Named : Type 0 where
  system : FieldTypeName → Named
  own : Option FieldTypeName → Named
  nothing : Named

abbrev pub codes : String → List ℕ
codes String.[] = []
codes (String.◌∷◌ c cs) = code c ∷ codes cs

-- Of the code points: in the range, ends included.
abbrev pub within : ℕ → ℕ → ℕ → Bool
within low high c = leb low c && leb c high

-- A letter in lower case, then letters and digits, all of them ASCII.
abbrev pub is_camel_case : List ℕ → Bool
is_camel_case [] = false
is_camel_case (c ∷ cs) =
    within 97 122 c && all (λ d. within 97 122 d || within 65 90 d || within 48 57 d) cs

abbrev pub named : String → (String → Option FieldTypeName) → Named
named field field_types =
    if "$status" == field
    then system select
    else if "$id" == field
    then system text
    else if "$entryKey" == field
    then system slug
    else if is_camel_case (codes field)
    then own (field_types field)
    else nothing

-- A typed field takes the operators of its type with as many values as they take, each a value of the
-- type.
abbrev pub typed_accepts : Parsing → FieldTypeName → String → List String → Bool
typed_accepts p type op values =
    is_operator_allowed type op
    && count_fits (operator_arity op) values
    && all (value_fits p type) values

-- A field without a type takes one value for equality; a system field is always set.
abbrev pub named_accepts : Parsing → String → List String → Named → Bool
named_accepts p op values nothing = false
named_accepts p op values (own none) = op == "eq" && count_fits one values
named_accepts p op values (own (some type)) = typed_accepts p type op values
named_accepts p op values (system type) = not (is_presence op) && typed_accepts p type op values

abbrev pub accepts : Parsing → SearchFilter → (String → Option FieldTypeName) → Bool
accepts p filter field_types =
    named_accepts p (operator_or_eq filter.op) (value_list filter.values filter.value)
      (named filter.field field_types)

-- The same by the target that the code resolves.
abbrev pub target_accepts : Parsing → String → String → List String → Target → Bool
target_accepts p field op values (no_target _) = false
target_accepts p field op values (target none _) = op == "eq" && count_fits one values
target_accepts p field op values (target (some type) _) =
    is_operator_allowed type op
    && count_fits (operator_arity op) values
    && not (is_presence op && is_system_field_id field)
    && all (value_fits p type) values

rest_camel :
    (cs : String)
    → is_camel_rest cs ≡ all (λ d. within 97 122 d || within 65 90 d || within 48 57 d) (codes cs)
rest_camel String.[] = refl
rest_camel (String.◌∷◌ c cs) = rw (rest_camel cs) (ground arith)

field_id_camel : (field : String) → is_field_id field ≡ is_camel_case (codes field)
unfolding is_field_id
field_id_camel String.[] = refl
field_id_camel (String.◌∷◌ c cs) = rw (rest_camel cs) (ground arith)

dollar_not_camel :
    (field : String) → is_system_field_id field ≡ true → is_camel_case (codes field) ≡ false
unfolding is_system_field_id
dollar_not_camel String.[] h = refl
dollar_not_camel (String.◌∷◌ c cs) h = ground arith

named_fields :
    (field : String)
    → (field ≡ "$status")
      ⊎ (field ≡ "$id")
      ⊎ (field ≡ "$entryKey")
      ⊎ ((("$status" == field) ≡ false)
          × (("$id" == field) ≡ false)
          × (("$entryKey" == field) ≡ false))
named_fields field =
    ground (arith, eq_iff "$status" field, eq_iff "$id" field, eq_iff "$entryKey" field)

module _ (p : Parsing) (op : String) (values : List String)
    (field_types : String → Option FieldTypeName) where
  abbrev pub IsResolved : String → Type 0
  IsResolved field =
      target_accepts p field op values (resolve_target field field_types)
      ≡ named_accepts p op values (named field field_types)

  set_lem :
      (type : FieldTypeName)
      → (is_operator_allowed type op
          && count_fits (operator_arity op) values
          && not (is_presence op && true)
          && all (value_fits p type) values)
        ≡ (not (is_presence op) && typed_accepts p type op values)
  set_lem type = ground arith

  free_lem :
      (type : FieldTypeName)
      → (is_operator_allowed type op
          && count_fits (operator_arity op) values
          && not (is_presence op && false)
          && all (value_fits p type) values)
        ≡ typed_accepts p type op values
  free_lem type = ground arith

  own_lem :
      (field path : String) (type : Option FieldTypeName)
      → is_system_field_id field ≡ false
      → target_accepts p field op values (target type path) ≡ named_accepts p op values (own type)
  own_lem field path none h = refl
  own_lem field path (some type) h = rw h (free_lem type)

  status_lem : IsResolved "$status"
  unfolding resolve_target get_system_field is_system_field_id
  status_lem = set_lem select

  id_lem : IsResolved "$id"
  unfolding resolve_target get_system_field is_system_field_id
  id_lem = set_lem text

  entry_key_lem : IsResolved "$entryKey"
  unfolding resolve_target get_system_field is_system_field_id
  entry_key_lem = set_lem slug

  other_lem :
      (field : String)
      → ("$status" == field) ≡ false
      → ("$id" == field) ≡ false
      → ("$entryKey" == field) ≡ false
      → IsResolved field
  unfolding resolve_target get_system_field
  other_lem field s i k = elim (Bool-cases (is_system_field_id field)) [
    | inl sys ↦ rw (sys, s, i, k, dollar_not_camel field sys) refl
    | inr plain ↦ elim (Bool-cases (is_field_id field)) [
      | inl camel ↦
          rw (plain, camel, s, i, k, sym (field_id_camel field) ∙ camel)
            (own_lem field _ (field_types field) plain)
      | inr not_camel ↦ rw (plain, not_camel, s, i, k, sym (field_id_camel field) ∙ not_camel) refl
    ]
  ]

  pub resolve_target-IsResolved : (field : String) → IsResolved field
  resolve_target-IsResolved field = elim (named_fields field) [
    | inl e ↦ subst IsResolved (sym e) status_lem
    | inr (inl e) ↦ subst IsResolved (sym e) id_lem
    | inr (inr (inl e)) ↦ subst IsResolved (sym e) entry_key_lem
    | inr (inr (inr (s, i, k))) ↦ other_lem field s i k
  ]
