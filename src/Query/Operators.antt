-- ===== src/Query/Operators.antt =====
-- apps/cms/utils/queryBuilder/operators.ts: the operators of each field type, their arity and the
-- input that edits their value. An operator id is its wire string, since ids come from URLs too.
use boject_cms.Common.{
  String, ◌==◌, Bool, true, false, ◌||◌, not, List, [], ◌∷◌, ◌++◌, Option, none, some, any, filter,
  find?, if◌then◌else◌,
}
use boject_cms.FieldType.{
  FieldTypeName, entry_title, slug, text, textarea, number, boolean, datetime, select, richtext,
  relation, multirelation, image, field_types,
}

pub record Operator : Type 0 where
  pub id : String
  pub label : String
  pub description : String
  pub rich : Bool

abbrev operator : String → String → String → Bool → Operator
operator i l d r = record { id = i; label = l; description = d; rich = r }

abbrev pub eq_op : Operator
eq_op = operator "eq" "is" "Exact match" false

abbrev contains_op : Operator
contains_op = operator "contains" "contains" "Matches part of the value" true

abbrev starts_with_op : Operator
starts_with_op = operator "startsWith" "starts with" "Matches the beginning" true

abbrev text_operators : List Operator
text_operators =
    eq_op ∷ operator "neq" "is not" "Excludes matches" true ∷ contains_op ∷ starts_with_op ∷ []

abbrev nullary_ops : List Operator
nullary_ops =
    operator "isNotSet" "is not set" "Empty or missing" true
    ∷ operator "isSet" "is set" "Has any value" true
    ∷ []

-- `REGISTRY`: a type that it leaves out has no operators.
abbrev pub registry : FieldTypeName → Option (List Operator)
registry text = some (text_operators ++ nullary_ops)
registry textarea = some (eq_op ∷ contains_op ∷ nullary_ops)
registry slug = some (eq_op ∷ starts_with_op ∷ nullary_ops)
registry entry_title = some text_operators
registry number = some (
    operator "eq" "=" "Equals" false
    ∷ operator "neq" "≠" "Not equal" true
    ∷ operator "gt" ">" "Greater than" true
    ∷ operator "gte" "≥" "At least" true
    ∷ operator "lt" "<" "Less than" true
    ∷ operator "lte" "≤" "At most" true
    ∷ nullary_ops)
registry boolean = some (eq_op ∷ nullary_ops)
registry datetime = some (
    operator "before" "before" "Before the date" true
    ∷ operator "after" "after" "After the date" true
    ∷ operator "between" "is between" "Within a range" true
    ∷ nullary_ops)
registry select = some (
    eq_op
    ∷ operator "neq" "is not" "Excludes the choice" true
    ∷ operator "in" "is any of" "Matches any selected" true
    ∷ nullary_ops)
registry relation = some (eq_op ∷ operator "neq" "is not" "Excludes the entry" true ∷ nullary_ops)
registry multirelation = some (
    operator "eq" "contains" "Contains the entry" false
    ∷ operator "containsAny" "contains any" "Contains any selected" true
    ∷ operator "containsAll" "contains all" "Contains all selected" true
    ∷ nullary_ops)
registry richtext = none
registry image = none

-- `REGISTRY[type] ?? d`.
abbrev pub registered_or : FieldTypeName → List Operator → List Operator
registered_or type d = elim (registry type) [ none ↦ d | some ops ↦ ops ]

abbrev pub all_operators : List FieldTypeName → List Operator
all_operators [] = []
all_operators (t ∷ ts) = registered_or t [] ++ all_operators ts

-- `OPERATOR_IDS.has(id)`.
unfoldable pub is_operator_id : String → Bool
is_operator_id i = any (λ o. o.id == i) (all_operators field_types)

unfoldable pub is_operator_allowed : FieldTypeName → String → Bool
is_operator_allowed type op_id = any (λ o. o.id == op_id) (registered_or type [])

pub data Arity : Type 0 where
  zero one two many : Arity

unfoldable pub operator_arity : String → Arity
operator_arity op_id =
    if op_id == "isSet" || op_id == "isNotSet"
    then zero
    else if op_id == "between"
    then two
    else if op_id == "in" || op_id == "containsAny" || op_id == "containsAll"
    then many
    else one

-- The options of `availableOperators`.
pub record OperatorFlags : Type 0 where
  pub rich : Bool
  pub multi_value : Bool
  pub range : Bool
  pub nullary : Bool

abbrev pub arity_offered : OperatorFlags → Arity → Bool
arity_offered flags many = flags.multi_value
arity_offered flags two = flags.range
arity_offered flags zero = flags.nullary
arity_offered flags one = true

unfoldable pub available_operators : FieldTypeName → OperatorFlags → List Operator
available_operators type flags =
    let every = registered_or type (eq_op ∷ []) in
    filter (λ o. arity_offered flags (operator_arity o.id))
      (if flags.rich then every else filter (λ o. not o.rich) every)

abbrev pub first_or : List Operator → Operator → Operator
first_or [] d = d
first_or (o ∷ _) _ = o

unfoldable pub default_operator : FieldTypeName → Operator
default_operator type = first_or (registered_or type (eq_op ∷ [])) eq_op

unfoldable pub operator_label : FieldTypeName → String → String
operator_label type i = elim (find? (λ o. o.id == i) (registered_or type (eq_op ∷ []))) [
  | none ↦ i
  | some o ↦ o.label
]

pub data ValueInputKind : Type 0 where
  text_input number_input boolean_input select_input entry_input : ValueInputKind
  multi_select multi_entry date_input date_range : ValueInputKind

abbrev plain_kind : FieldTypeName → ValueInputKind
plain_kind number = number_input
plain_kind boolean = boolean_input
plain_kind select = select_input
plain_kind relation = entry_input
plain_kind multirelation = entry_input
plain_kind _ = text_input

unfoldable pub value_input_kind : FieldTypeName → String → ValueInputKind
value_input_kind select op = if op == "in" then multi_select else select_input
value_input_kind multirelation op =
    if op == "containsAny" || op == "containsAll" then multi_entry else entry_input
value_input_kind datetime op = if op == "between" then date_range else date_input
value_input_kind type op = plain_kind type
