-- ===== src/Query/OperatorLaws.antt =====
-- The registry of operators is closed and consistent.
use boject_cms.Common.{
  String, ◌==◌, Bool, true, false, ◌&&◌, not, ◌≡◌, refl, List, [], ◌∷◌, ◌++◌, any, all, filter,
  if◌then◌else◌, arith, eq_iff, Bool-cases, inl, inr, none, some,
}
use boject_cms.FieldType.{
  FieldTypeName, entry_title, slug, text, textarea, number, boolean, datetime, select, richtext,
  relation, multirelation, image, field_types, same_type, same_type-eq, field_types_complete,
}
use boject_cms.Query.Operators.{
  Operator, eq_op, registry, registered_or, is_operator_id, is_operator_allowed, operator_arity,
  OperatorFlags, arity_offered, available_operators, Arity, two, many, value_input_kind,
  multi_select, multi_entry, date_range, ValueInputKind, all_operators,
}

module _ {ℓ} {A : Type ℓ} where
  any-append_left : (p : A → Bool) (xs ys : List A) → any p xs ≡ true → any p (xs ++ ys) ≡ true
  any-append_left p [] ys h = cc
  any-append_left p (x ∷ xs) ys h = ground (arith, any-append_left p xs ys)

  any-append_right : (p : A → Bool) (xs ys : List A) → any p ys ≡ true → any p (xs ++ ys) ≡ true
  any-append_right p [] ys h = h
  any-append_right p (x ∷ xs) ys h = ground (arith, any-append_right p xs ys)

  any-filter : (p q : A → Bool) (xs : List A) → any p (filter q xs) ≡ true → any p xs ≡ true
  any-filter p q [] h = h
  any-filter p q (x ∷ xs) h = ground (arith, any-filter p q xs)

  -- What holds of all entries holds of one that a test finds, where the test fixes what matters.
  pub all_at :
      (p q : A → Bool) (xs : List A)
      → all p xs ≡ true
      → any q xs ≡ true
      → (x : A) × (p x ≡ true) × (q x ≡ true)
  all_at p q [] h k = cc
  all_at p q (x ∷ xs) h k = elim (Bool-cases (q x)) [
    | inl hit ↦ (x, ground arith, hit)
    | inr miss ↦ all_at p q xs (ground arith) (ground arith)
  ]

any-all_operators :
    (p : Operator → Bool) (type : FieldTypeName) (ts : List FieldTypeName)
    → any (λ t. same_type t type) ts ≡ true
    → any p (registered_or type []) ≡ true
    → any p (all_operators ts) ≡ true
any-all_operators p type [] h k = cc
any-all_operators p type (t ∷ ts) h k = elim (Bool-cases (same_type t type)) [
  | inl here ↦
      any-append_left p (registered_or t []) (all_operators ts) (rw (same_type-eq t type here) k)
  | inr later ↦
      any-append_right p (registered_or t []) (all_operators ts)
        (any-all_operators p type ts (ground arith) k)
]

-- An operator that a field type allows is a registered operator id.
is_operator_allowed-is_operator_id :
    (type : FieldTypeName) (op_id : String)
    → is_operator_allowed type op_id ≡ true
    → is_operator_id op_id ≡ true
unfolding is_operator_allowed is_operator_id
is_operator_allowed-is_operator_id type op_id h =
    any-all_operators (λ o. o.id == op_id) type field_types (field_types_complete type) h

abbrev pub has_registry : FieldTypeName → Bool
has_registry type = elim (registry type) [ none ↦ false | some _ ↦ true ]

registered_same :
    (type : FieldTypeName)
    → has_registry type ≡ true
    → registered_or type (eq_op ∷ []) ≡ registered_or type []
registered_same type h = ground arith

-- Whatever the flags, an operator that is offered for a type with a registry entry is allowed for
-- that type.
pub available-allowed :
    (type : FieldTypeName) (flags : OperatorFlags) (op_id : String)
    → has_registry type ≡ true
    → any (λ o. o.id == op_id) (available_operators type flags) ≡ true
    → is_operator_allowed type op_id ≡ true
unfolding available_operators is_operator_allowed
available-allowed type flags op_id h k =
    let every = registered_or type (eq_op ∷ []) in
    let found =
      any-filter (λ (o : Operator). o.id == op_id) (λ o. arity_offered flags (operator_arity o.id))
        (if flags.rich then every else filter (λ o. not o.rich) every) k in
    rw (← registered_same type h) (elim (Bool-cases flags.rich) [
      | inl rich ↦ rw rich at found
      | inr plain ↦
          any-filter (λ (o : Operator). o.id == op_id) (λ o. not o.rich) every (rw plain at found)
    ])

-- The inputs that edit a list, and the one that edits a range.
abbrev pub edits_list : ValueInputKind → Bool
edits_list multi_select = true
edits_list multi_entry = true
edits_list _ = false

abbrev pub edits_range : ValueInputKind → Bool
edits_range date_range = true
edits_range _ = false

abbrev pub is_many : Arity → Bool
is_many many = true
is_many _ = false

abbrev pub is_two : Arity → Bool
is_two two = true
is_two _ = false

abbrev same_bool : Bool → Bool → Bool
same_bool true b = b
same_bool false b = not b

abbrev fits : FieldTypeName → Operator → Bool
fits type o =
    same_bool (edits_list (value_input_kind type o.id)) (is_many (operator_arity o.id))
    && same_bool (edits_range (value_input_kind type o.id)) (is_two (operator_arity o.id))

registry-fits : (type : FieldTypeName) → all (fits type) (registered_or type []) ≡ true
unfolding value_input_kind operator_arity
registry-fits entry_title = refl
registry-fits slug = refl
registry-fits text = refl
registry-fits textarea = refl
registry-fits number = refl
registry-fits boolean = refl
registry-fits datetime = refl
registry-fits select = refl
registry-fits richtext = refl
registry-fits relation = refl
registry-fits multirelation = refl
registry-fits image = refl

-- For every operator that a type allows, the input edits a list exactly when the operator takes
-- many values, and a range exactly when it takes two.
pub value_input_kind-arity :
    (type : FieldTypeName) (op_id : String)
    → is_operator_allowed type op_id ≡ true
    → (edits_list (value_input_kind type op_id) ≡ is_many (operator_arity op_id))
      × (edits_range (value_input_kind type op_id) ≡ is_two (operator_arity op_id))
unfolding is_operator_allowed
value_input_kind-arity type op_id h =
    let (o, fit, named) =
      all_at (fits type) (λ o. o.id == op_id) (registered_or type []) (registry-fits type) h in
    rw (← (eq_iff o.id op_id).0 named) (ground arith)
