-- ===== src/Schema/Plan.antt =====
-- apps/cms/scripts/content-bundle/planSchema.ts: the fields of a type (`diffFieldsForType`), and the
-- plan of a bundle (`planSchema`).
use Prim.Native.String.{◌++◌ as ◌<>◌}
use boject_cms.Common.{
  String, ◌==◌, ltb, Bool, ◌&&◌, ◌||◌, not, truthy, List, [], ◌∷◌, ◌++◌, map, filter, Option, none,
  some, if◌then◌else◌, string_eq, has,
}
use boject_cms.FieldType.{relation, multirelation, same_type}
use boject_cms.Schema.Types.{
  BundleField, BundleContentType, SnapshotField, SnapshotType, FieldUsage, CurrentSchemaSnapshot,
  TypeUpdate, FieldRemoval, field_removal_data_loss, new_required_field_with_entries,
  content_type_removal_with_entries, content_type_identifier_change, field_identifier_change,
  content_type_removal_needs_flag, field_removal_needs_flag, relation_target_not_found, SchemaPlan,
  empty_plan, block, warn, type_path, field_path, find_last?,
}
use boject_cms.Schema.Options.{same_text?, texts_at}
use boject_cms.Schema.Fields.{diff_field_update, entries_with, is_empty}

abbrev pub id_or_empty : Option String → String
id_or_empty none = ""
id_or_empty (some s) = s

-- The field of the database that a bundle field names by its id, where its identifier is another.
abbrev pub other_field : String → Option SnapshotField → Option SnapshotField
other_field identifier none = none
other_field identifier (some f) = if f.identifier == identifier then none else some f

abbrev pub renamed_field : List SnapshotField → BundleField → Option SnapshotField
renamed_field dbs bf =
    if truthy bf.id
    then other_field bf.identifier
        (find_last? (λ (f : SnapshotField). f.id == id_or_empty bf.id) dbs)
    else none

-- The identifiers of the bundle fields that rename, and the ids of those that they name.
abbrev pub renaming_field :
    BundleField → Option SnapshotField → List String × List String → List String × List String
renaming_field bf none rest = rest
renaming_field bf (some f) rest = (bf.identifier ∷ rest.0, f.id ∷ rest.1)

abbrev pub renaming_fields : List SnapshotField → List BundleField → List String × List String
renaming_fields dbs [] = ([], [])
renaming_fields dbs (bf ∷ bfs) =
    let rest = renaming_fields dbs bfs in renaming_field bf (renamed_field dbs bf) rest

abbrev pub block_renamed_field :
    String → BundleField → Option SnapshotField → SchemaPlan → SchemaPlan
block_renamed_field t bf none plan = plan
block_renamed_field t bf (some f) plan =
    block field_identifier_change (field_path t bf.identifier) [] plan

abbrev pub block_renamed_fields :
    String → List SnapshotField → List BundleField → SchemaPlan → SchemaPlan
block_renamed_fields t dbs [] plan = plan
block_renamed_fields t dbs (bf ∷ bfs) plan =
    block_renamed_fields t dbs bfs (block_renamed_field t bf (renamed_field dbs bf) plan)

abbrev pub create_field : BundleContentType → SnapshotType → BundleField → SchemaPlan → SchemaPlan
create_field bt db bf plan =
    let created = record plan {
      field_creates =
          plan.field_creates
          ++ record { content_type_id = db.id; content_type_identifier = bt.identifier; field = bf }
            ∷ [];
    } in
    if bf.required && ltb 0 db.entry_count
    then warn new_required_field_with_entries (field_path bt.identifier bf.identifier) created
    else created

abbrev pub usage_of : CurrentSchemaSnapshot → String → String → Option FieldUsage
usage_of current t f = current.field_usage (t <> (":" <> f))

-- A bundle field with the field of the database that has its identifier.
abbrev pub plan_field :
    CurrentSchemaSnapshot
    → BundleContentType
    → SnapshotType
    → BundleField
    → Option SnapshotField
    → SchemaPlan
    → SchemaPlan
plan_field current bt db bf none plan = create_field bt db bf plan
plan_field current bt db bf (some f) plan =
    diff_field_update bt.identifier bf f db.entry_count
      (usage_of current bt.identifier bf.identifier) plan

abbrev pub walk_bundle_fields :
    CurrentSchemaSnapshot
    → BundleContentType
    → SnapshotType
    → List String
    → List BundleField
    → SchemaPlan
    → SchemaPlan
walk_bundle_fields current bt db renaming [] plan = plan
walk_bundle_fields current bt db renaming (bf ∷ bfs) plan =
    walk_bundle_fields current bt db renaming bfs (
      if has bf.identifier renaming
      then plan
      else plan_field current bt db bf
          (find_last? (λ (f : SnapshotField). f.identifier == bf.identifier) db.fields) plan)

abbrev pub removal_of : BundleContentType → SnapshotField → Option FieldUsage → FieldRemoval
removal_of bt f usage = record {
  id = f.id;
  content_type_identifier = bt.identifier;
  field_identifier = f.identifier;
  entries_with_value = entries_with usage;
}

abbrev pub remove_field :
    Bool → BundleContentType → SnapshotField → Option FieldUsage → SchemaPlan → SchemaPlan
remove_field allow_destructive bt f usage plan =
    let removed = record plan {
      field_removals = plan.field_removals ++ removal_of bt f usage ∷ [];
    } in
    if allow_destructive
    then if ltb 0 (entries_with usage)
      then warn field_removal_data_loss (field_path bt.identifier f.identifier) removed
      else removed
    else block field_removal_needs_flag (field_path bt.identifier f.identifier) [] plan

abbrev pub walk_db_fields :
    Bool
    → CurrentSchemaSnapshot
    → BundleContentType
    → List String
    → List SnapshotField
    → SchemaPlan
    → SchemaPlan
walk_db_fields allow_destructive current bt renamed [] plan = plan
walk_db_fields allow_destructive current bt renamed (f ∷ fs) plan =
    walk_db_fields allow_destructive current bt renamed fs (
      if has f.identifier (map (λ (b : BundleField). b.identifier) bt.fields) || has f.id renamed
      then plan
      else remove_field allow_destructive bt f (usage_of current bt.identifier f.identifier) plan)

unfoldable pub diff_fields_for_type :
    Bool → CurrentSchemaSnapshot → BundleContentType → SnapshotType → SchemaPlan → SchemaPlan
diff_fields_for_type allow_destructive current bt db plan =
    let renames = renaming_fields db.fields bt.fields in
    walk_db_fields allow_destructive current bt renames.1 db.fields (
      walk_bundle_fields current bt db renames.0 bt.fields
        (block_renamed_fields bt.identifier db.fields bt.fields plan))

abbrev pub diff_type_metadata : BundleContentType → SnapshotType → Option TypeUpdate
diff_type_metadata bt db =
    if bt.name == db.name && same_text? bt.description db.description
    then none
    else some (record {
      id = db.id;
      identifier = bt.identifier;
      name = if bt.name == db.name then none else some bt.name;
      description = if same_text? bt.description db.description then none else some bt.description;
    })

abbrev pub push_type_update : Option TypeUpdate → SchemaPlan → SchemaPlan
push_type_update none plan = plan
push_type_update (some u) plan = record plan { type_updates = plan.type_updates ++ u ∷ [] }

abbrev pub other_type : String → Option SnapshotType → Option SnapshotType
other_type identifier none = none
other_type identifier (some t) = if t.identifier == identifier then none else some t

abbrev pub renamed_type : List SnapshotType → BundleContentType → Option SnapshotType
renamed_type dbs bt =
    if truthy bt.id
    then other_type bt.identifier (find_last? (λ (t : SnapshotType). t.id == id_or_empty bt.id) dbs)
    else none

abbrev pub renaming_type :
    BundleContentType → Option SnapshotType → List String × List String → List String × List String
renaming_type bt none rest = rest
renaming_type bt (some t) rest = (bt.identifier ∷ rest.0, t.id ∷ rest.1)

abbrev pub renaming_types : List SnapshotType → List BundleContentType → List String × List String
renaming_types dbs [] = ([], [])
renaming_types dbs (bt ∷ bts) =
    let rest = renaming_types dbs bts in renaming_type bt (renamed_type dbs bt) rest

abbrev pub block_renamed_type : BundleContentType → Option SnapshotType → SchemaPlan → SchemaPlan
block_renamed_type bt none plan = plan
block_renamed_type bt (some t) plan =
    block content_type_identifier_change (type_path bt.identifier) [] plan

abbrev pub block_renamed_types :
    List SnapshotType → List BundleContentType → SchemaPlan → SchemaPlan
block_renamed_types dbs [] plan = plan
block_renamed_types dbs (bt ∷ bts) plan =
    block_renamed_types dbs bts (block_renamed_type bt (renamed_type dbs bt) plan)

-- A bundle type with the type of the database that has its identifier.
abbrev pub plan_type :
    Bool → CurrentSchemaSnapshot → BundleContentType → Option SnapshotType → SchemaPlan → SchemaPlan
plan_type allow_destructive current bt none plan = record plan {
  type_creates = plan.type_creates ++ bt ∷ [];
}
plan_type allow_destructive current bt (some db) plan =
    diff_fields_for_type allow_destructive current bt db
      (push_type_update (diff_type_metadata bt db) plan)

abbrev pub walk_bundle_types :
    Bool → CurrentSchemaSnapshot → List String → List BundleContentType → SchemaPlan → SchemaPlan
walk_bundle_types allow_destructive current renaming [] plan = plan
walk_bundle_types allow_destructive current renaming (bt ∷ bts) plan =
    walk_bundle_types allow_destructive current renaming bts (
      if has bt.identifier renaming
      then plan
      else plan_type allow_destructive current bt
          (find_last? (λ (t : SnapshotType). t.identifier == bt.identifier) current.content_types)
          plan)

abbrev pub remove_type : Bool → SnapshotType → SchemaPlan → SchemaPlan
remove_type allow_destructive t plan =
    if ltb 0 t.entry_count
    then block content_type_removal_with_entries (type_path t.identifier) [] plan
    else if allow_destructive
    then record plan {
      type_removals =
          plan.type_removals
          ++ record { id = t.id; identifier = t.identifier; entry_count = t.entry_count } ∷ [];
    }
    else block content_type_removal_needs_flag (type_path t.identifier) [] plan

abbrev pub walk_db_types :
    Bool → List String → List String → List SnapshotType → SchemaPlan → SchemaPlan
walk_db_types allow_destructive named renamed [] plan = plan
walk_db_types allow_destructive named renamed (t ∷ ts) plan =
    walk_db_types allow_destructive named renamed ts (
      if has t.identifier named || has t.id renamed
      then plan
      else remove_type allow_destructive t plan)

abbrev pub missing_targets : List String → BundleField → List String
missing_targets known bf =
    if same_type bf.type relation || same_type bf.type multirelation
    then filter (λ t. not (has t known)) (texts_at "targetContentTypeIdentifiers" bf.options)
    else []

abbrev pub check_targets : List String → String → List BundleField → SchemaPlan → SchemaPlan
check_targets known t [] plan = plan
check_targets known t (bf ∷ bfs) plan = check_targets known t bfs (
    if is_empty (missing_targets known bf)
    then plan
    else block relation_target_not_found (field_path t bf.identifier) [] plan)

abbrev pub check_all_targets : List String → List BundleContentType → SchemaPlan → SchemaPlan
check_all_targets known [] plan = plan
check_all_targets known (bt ∷ bts) plan =
    check_all_targets known bts (check_targets known bt.identifier bt.fields plan)

abbrev pub types_or_empty : Option (List BundleContentType) → List BundleContentType
types_or_empty none = []
types_or_empty (some bts) = bts

abbrev pub type_identifiers : List BundleContentType → List String
type_identifiers = map (λ bt. bt.identifier)

abbrev pub known_types : List BundleContentType → CurrentSchemaSnapshot → List String
known_types bts current =
    type_identifiers bts ++ map (λ (t : SnapshotType). t.identifier) current.content_types

unfoldable pub plan_schema :
    Option (List BundleContentType) → CurrentSchemaSnapshot → Bool → SchemaPlan
plan_schema content_types current allow_destructive =
    let bts = types_or_empty content_types in
    let renames = renaming_types current.content_types bts in
    check_all_targets (known_types bts current) bts (
      walk_db_types allow_destructive (type_identifiers bts) renames.1 current.content_types (
        walk_bundle_types allow_destructive current renames.0 bts
          (block_renamed_types current.content_types bts empty_plan)))
