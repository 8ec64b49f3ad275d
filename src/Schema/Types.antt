-- ===== src/Schema/Types.antt =====
-- apps/cms/scripts/content-bundle/schemaPlan.types.ts and types.ts: bundles, the snapshot of the
-- database and the plan. A warning or a blocker is told by its code and its path; its message is left
-- out.
use Prim.Native.String.{◌++◌ as ◌<>◌}
use boject_cms.Common.{
  ℕ, String, Bool, true, false, List, [], ◌∷◌, ◌++◌, Option, none, some, if◌then◌else◌,
}
use boject_cms.FieldType.{FieldTypeName, entry_title, slug}

-- A list of texts, or another value by its JSON text: one that `===` compares by value, or an object.
pub data OptionValue : Type 0 where
  texts : List String → OptionValue
  scalar object : String → OptionValue

-- The keys of an options object with their values.
abbrev pub Options : Type 0
Options = List (String × OptionValue)

pub record BundleField : Type 0 where
  pub id : Option String
  pub identifier : String
  pub name : String
  pub type : FieldTypeName
  pub required : Bool
  pub unique : Option Bool
  pub order : ℕ
  pub options : Option Options

pub record BundleContentType : Type 0 where
  pub id : Option String
  pub identifier : String
  pub name : String
  pub description : Option String
  pub fields : List BundleField

pub record SnapshotField : Type 0 where
  pub id : String
  pub identifier : String
  pub name : String
  pub type : FieldTypeName
  pub required : Bool
  pub unique : Bool
  pub order : ℕ
  pub options : Option Options

pub record SnapshotType : Type 0 where
  pub id : String
  pub identifier : String
  pub name : String
  pub description : Option String
  pub fields : List SnapshotField
  pub entry_count : ℕ

-- A count that is missing is zero, and so is the list of duplicates empty.
pub record FieldUsage : Type 0 where
  pub entries_with_value : ℕ
  pub select_choice_counts : String → ℕ
  pub relation_target_counts : String → ℕ
  pub duplicate_values : List (List String)

pub record CurrentSchemaSnapshot : Type 0 where
  pub content_types : List SnapshotType
  pub field_usage : String → Option FieldUsage

pub record TypeUpdate : Type 0 where
  pub id : String
  pub identifier : String
  pub name : Option String
  pub description : Option (Option String)

pub record TypeRemoval : Type 0 where
  pub id : String
  pub identifier : String
  pub entry_count : ℕ

pub record FieldCreate : Type 0 where
  pub content_type_id : String
  pub content_type_identifier : String
  pub field : BundleField

pub record FieldChanges : Type 0 where
  pub name : Option String
  pub order : Option ℕ
  pub required : Option Bool
  pub unique : Option Bool
  pub options : Option Options

pub record FieldUpdate : Type 0 where
  pub id : String
  pub content_type_identifier : String
  pub field_identifier : String
  pub changes : FieldChanges

pub record FieldRemoval : Type 0 where
  pub id : String
  pub content_type_identifier : String
  pub field_identifier : String
  pub entries_with_value : ℕ

pub data WarningCode : Type 0 where
  field_removal_data_loss new_required_field_with_entries : WarningCode
  optional_to_required_no_nulls unrecognised_field_option : WarningCode

pub data BlockerCode : Type 0 where
  content_type_removal_with_entries content_type_identifier_change : BlockerCode
  field_identifier_change field_type_change optional_to_required_has_nulls : BlockerCode
  unique_conflict select_choice_removed_in_use relation_target_removed_in_use : BlockerCode
  content_type_removal_needs_flag field_removal_needs_flag relation_target_not_found : BlockerCode

pub record Warning : Type 0 where
  pub code : WarningCode
  pub path : String

pub record Blocker : Type 0 where
  pub code : BlockerCode
  pub path : String
  pub affected_entry_ids : List String

-- `contentTypes` and `fields` of the plan, each with its three lists.
pub record SchemaPlan : Type 0 where
  pub type_creates : List BundleContentType
  pub type_updates : List TypeUpdate
  pub type_removals : List TypeRemoval
  pub field_creates : List FieldCreate
  pub field_updates : List FieldUpdate
  pub field_removals : List FieldRemoval
  pub warnings : List Warning
  pub blockers : List Blocker

abbrev pub empty_plan : SchemaPlan
empty_plan = record {
  type_creates = [];
  type_updates = [];
  type_removals = [];
  field_creates = [];
  field_updates = [];
  field_removals = [];
  warnings = [];
  blockers = [];
}

abbrev pub block : BlockerCode → String → List String → SchemaPlan → SchemaPlan
block code path ids plan = record plan {
  blockers = plan.blockers ++ record { code = code; path = path; affected_entry_ids = ids } ∷ [];
}

abbrev pub warn : WarningCode → String → SchemaPlan → SchemaPlan
warn code path plan = record plan {
  warnings = plan.warnings ++ record { code = code; path = path } ∷ [];
}

abbrev pub type_path : String → String
type_path t = "contentTypes." <> t

abbrev pub field_path : String → String → String
field_path t f = "fields." <> (t <> ("." <> f))

-- `field.unique === true`, and the types that are unique without it.
abbrev pub effective_bundle_unique : BundleField → Bool
effective_bundle_unique field = unique_as field.type field.unique
  where
    unique_as : FieldTypeName → Option Bool → Bool
    unique_as entry_title u = true
    unique_as slug u = true
    unique_as _ (some true) = true
    unique_as _ _ = false

module _ {ℓ} {A : Type ℓ} where
  -- A lookup in `new Map(xs.map(…))`: the last element with the key.
  abbrev pub find_last? : (A → Bool) → List A → Option A
  find_last? p [] = none
  find_last? p (x ∷ xs) = elim (find_last? p xs) [
    | some y ↦ some y
    | none ↦ if p x then some x else none
  ]
