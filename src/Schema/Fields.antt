-- ===== src/Schema/Fields.antt =====
-- apps/cms/scripts/content-bundle/planSchema.ts: the changes of the fields of one content type
-- (`diffFieldUpdate`). The plan that the functions of the source write to is passed through.
use boject_cms.Common.{
  ℕ, ◌-◌, String, ◌==◌, eqb, ltb, Bool, true, false, ◌&&◌, ◌||◌, not, List, [], ◌∷◌, ◌++◌, filter,
  Option, none, some, if◌then◌else◌, string_eq, has,
}
use boject_cms.FieldType.{select, relation, multirelation, richtext, same_type}
use boject_cms.Schema.Types.{
  texts, BundleField, SnapshotField, FieldUsage, FieldChanges, unrecognised_field_option,
  field_type_change, optional_to_required_has_nulls, unique_conflict, select_choice_removed_in_use,
  relation_target_removed_in_use, SchemaPlan, block, warn, field_path, effective_bundle_unique,
}
use boject_cms.Schema.Options.{
  same_bool, or_empty, put_option, texts_at, shallow_options_equal, unknown_keys,
}

abbrev pub no_changes : FieldChanges
no_changes = record { name = none; order = none; required = none; unique = none; options = none }

-- `Object.keys(changes).length === 0`.
abbrev pub is_unchanged : FieldChanges → Bool
is_unchanged c =
    is_none c.name && is_none c.order && is_none c.required && is_none c.unique && is_none c.options
  where
    is_none : {A : Type 0} → Option A → Bool
    is_none none = true
    is_none (some _) = false

abbrev pub entries_with : Option FieldUsage → ℕ
entries_with none = 0
entries_with (some u) = u.entries_with_value

abbrev pub duplicates_of : Option FieldUsage → List (List String)
duplicates_of none = []
duplicates_of (some u) = u.duplicate_values

abbrev pub choice_count : Option FieldUsage → String → ℕ
choice_count none c = 0
choice_count (some u) c = u.select_choice_counts c

abbrev pub target_count : Option FieldUsage → String → ℕ
target_count none t = 0
target_count (some u) t = u.relation_target_counts t

abbrev pub concat : List (List String) → List String
concat [] = []
concat (xs ∷ xss) = xs ++ concat xss

-- The changes and the plan while a field is compared, or the plan where the comparison has returned.
pub data Comparison : Type 0 where
  going : FieldChanges → SchemaPlan → Comparison
  returned : SchemaPlan → Comparison

abbrev pub is_empty {ℓ} : {A : Type ℓ} → List A → Bool
is_empty [] = true
is_empty (_ ∷ _) = false

-- `xs.filter((x) => !ys.includes(x))`.
abbrev pub lacking : List String → List String → List String
lacking ys = filter (λ x. not (has x ys))

module _ (type_id : String) (bf : BundleField) (db : SnapshotField)
    (usage : Option FieldUsage) where
  abbrev path : String
  path = field_path type_id bf.identifier

  abbrev pub name_and_order : FieldChanges
  name_and_order = record no_changes {
    name = if bf.name == db.name then none else some bf.name;
    order = if eqb bf.order db.order then none else some bf.order;
  }

  abbrev pub diff_required : ℕ → FieldChanges → SchemaPlan → Comparison
  diff_required entry_count c plan =
      if same_bool bf.required db.required
      then going c plan
      else if bf.required
      then if ltb 0 (entry_count - entries_with usage)
        then going c (block optional_to_required_has_nulls path [] plan)
        else going (record c { required = some true }) plan
      else going (record c { required = some false }) plan

  abbrev pub diff_unique : FieldChanges → SchemaPlan → Comparison
  diff_unique c plan =
      if same_bool (effective_bundle_unique bf) db.unique
      then going c plan
      else if effective_bundle_unique bf
      then if is_empty (duplicates_of usage)
        then going (record c { unique = some true }) plan
        else going c (block unique_conflict path (concat (duplicates_of usage)) plan)
      else going (record c { unique = some false }) plan

  -- A key whose list of texts may lose only those that no entry uses.
  abbrev pub diff_texts :
      String → (String → ℕ) → SchemaPlan → FieldChanges → SchemaPlan → Comparison
  diff_texts key used refused c plan =
      let new = texts_at key bf.options in
      let old = texts_at key db.options in
      if is_empty (filter (λ t. ltb 0 (used t)) (lacking new old))
      then if is_empty (lacking old new) && is_empty (lacking new old)
        then going c plan
        else going (record c { options = some (put_option key (texts new) (or_empty bf.options)) })
            plan
      else returned refused

  abbrev pub diff_choices : FieldChanges → SchemaPlan → Comparison
  diff_choices c plan =
      if same_type bf.type select
      then diff_texts "choices" (choice_count usage)
          (block select_choice_removed_in_use path [] plan) c plan
      else going c plan

  abbrev pub diff_targets : FieldChanges → SchemaPlan → Comparison
  diff_targets c plan =
      if same_type bf.type relation || same_type bf.type multirelation
      then diff_texts "targetContentTypeIdentifiers" (target_count usage)
          (block relation_target_removed_in_use path [] plan) c plan
      else going c plan

  abbrev pub warn_unknown : SchemaPlan → SchemaPlan
  warn_unknown plan =
      if same_type bf.type richtext || is_empty (unknown_keys bf.options db.options)
      then plan
      else warn unrecognised_field_option path plan

  abbrev pub diff_options : FieldChanges → SchemaPlan → Comparison
  diff_options c plan =
      if (same_type bf.type select || same_type bf.type relation || same_type bf.type multirelation)
        || shallow_options_equal bf.options db.options
      then going c plan
      else going (record c { options = some (or_empty bf.options) }) (warn_unknown plan)

  abbrev pub push_update : FieldChanges → SchemaPlan → Comparison
  push_update c plan =
      if is_unchanged c
      then returned plan
      else returned (record plan {
        field_updates =
            plan.field_updates
            ++ record {
              id = db.id;
              content_type_identifier = type_id;
              field_identifier = bf.identifier;
              changes = c;
            }
              ∷ [];
      })

abbrev pub and_then : Comparison → (FieldChanges → SchemaPlan → Comparison) → Comparison
and_then (going c plan) f = f c plan
and_then (returned plan) f = returned plan

abbrev pub plan_of : Comparison → SchemaPlan
plan_of (going c plan) = plan
plan_of (returned plan) = plan

unfoldable pub diff_field_update :
    String → BundleField → SnapshotField → ℕ → Option FieldUsage → SchemaPlan → SchemaPlan
diff_field_update type_id bf db entry_count usage plan =
    if same_type bf.type db.type
    then plan_of (
        and_then
          (and_then
            (and_then
              (and_then
                (and_then
                  (diff_required type_id bf db usage entry_count
                    (name_and_order type_id bf db usage) plan)
                  (diff_unique type_id bf db usage))
                (diff_choices type_id bf db usage))
              (diff_targets type_id bf db usage))
            (diff_options type_id bf db usage))
          (push_update type_id bf db usage))
    else block field_type_change (field_path type_id bf.identifier) [] plan
