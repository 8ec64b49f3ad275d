-- ===== src/Schema/Unchanged.antt =====
-- The plan of a bundle that says what the database has.
use boject_cms.Common.{
  if-true, ◌≡◌, refl, sym, ap, ◌∙◌, String, ◌==◌, eq_refl, Bool, true, false, ◌&&◌, ◌||◌, not, List,
  [], ◌∷◌, map, filter, none, some, if◌then◌else◌, arith, string_eq, has, has-append,
}
use boject_cms.FieldType.{relation, multirelation, same_type}
use boject_cms.Schema.Types.{
  SnapshotField, SnapshotType, CurrentSchemaSnapshot, SchemaPlan, empty_plan, block, field_path,
  relation_target_not_found,
}
use boject_cms.Schema.Options.{same_text?, texts_at}
use boject_cms.Schema.Fields.{is_empty}
use boject_cms.Schema.Plan.{
  other_type, block_renamed_type, plan_type, push_type_update, diff_fields_for_type,
  diff_type_metadata, renamed_type, renaming_types, block_renamed_types, walk_bundle_types,
  walk_db_types, missing_targets, check_targets, check_all_targets, type_identifiers, known_types,
  plan_schema,
}
use boject_cms.Schema.Kept.{
  bundle_field, bundle_type, identifiers, AreFields, AreTypes, IsKept, Found, AllFound,
  IsDistinct-AllFound,
}
use boject_cms.Schema.SameFields.{if-either, same_text?_refl, diff_fields_for_type-same}

module _ (portable : Bool) where
  diff_type_metadata-none :
      (t : SnapshotType) → diff_type_metadata (bundle_type portable t) t ≡ none
  diff_type_metadata-none t =
      let h : (t.name == t.name && same_text? t.description t.description) ≡ true =
        ground (arith, eq_refl t.name, same_text?_refl t.description) in
      if-true _ _ _ h

  renamed_type-none :
      (ts : List SnapshotType) (t : SnapshotType)
      → Found (λ (g : SnapshotType). g.id) ts t
      → renamed_type ts (bundle_type portable t) ≡ none
  renamed_type-none ts t h = at portable
    where
      at : (b : Bool) → renamed_type ts (bundle_type b t) ≡ none
      at true = refl
      at false =
          if-either _ _ _
            (ap (other_type t.identifier) h ∙ if-true _ none (some t) (eq_refl t.identifier))

  renaming_types-none :
      (ts xs : List SnapshotType)
      → AllFound (λ (g : SnapshotType). g.id) ts xs
      → renaming_types ts (map (bundle_type portable) xs) ≡ ([], [])
  renaming_types-none ts [] h = refl
  renaming_types-none ts (t ∷ xs) h =
      rw (renamed_type-none ts t h.0) (renaming_types-none ts xs h.1)

  block_renamed_types-none :
      (ts xs : List SnapshotType) (p : SchemaPlan)
      → AllFound (λ (g : SnapshotType). g.id) ts xs
      → block_renamed_types ts (map (bundle_type portable) xs) p ≡ p
  block_renamed_types-none ts [] p h = refl
  block_renamed_types-none ts (t ∷ xs) p h =
      ap
        (λ o.
          block_renamed_types ts (map (bundle_type portable) xs)
            (block_renamed_type (bundle_type portable t) o p))
        (renamed_type-none ts t h.0)
      ∙ block_renamed_types-none ts xs p h.1

  module _ (current : CurrentSchemaSnapshot) (known : List String) where
    walk_bundle_types-same :
        (allow : Bool) (xs : List SnapshotType) (p : SchemaPlan)
        → AllFound (λ (g : SnapshotType). g.identifier) current.content_types xs
        → AreTypes known xs
        → walk_bundle_types allow current [] (map (bundle_type portable) xs) p ≡ p
    unfolding has
    walk_bundle_types-same allow [] p h a = refl
    walk_bundle_types-same allow (t ∷ xs) p h a =
        let bt = bundle_type portable t in
        let rest = walk_bundle_types allow current [] (map (bundle_type portable) xs) in
        ap (λ o. rest (plan_type allow current bt o p)) h.0
        ∙ ap (λ o. rest (diff_fields_for_type allow current bt t (push_type_update o p)))
            (diff_type_metadata-none t)
        ∙ ap rest (diff_fields_for_type-same portable allow current t known p a.0 a.1 a.2)
        ∙ walk_bundle_types-same allow xs p h.1 a.3

  has-bundle_type :
      (ts : List SnapshotType) (k : String)
      → has k (map (λ (g : SnapshotType). g.identifier) ts)
        ≡ has k (type_identifiers (map (bundle_type portable) ts))
  unfolding has
  has-bundle_type [] k = refl
  has-bundle_type (t ∷ ts) k = ap (λ b. t.identifier == k || b) (has-bundle_type ts k)

  walk_db_types-same :
      (allow : Bool) (named : List String) (xs : List SnapshotType) (p : SchemaPlan)
      → ((k : String)
          → has k (map (λ (g : SnapshotType). g.identifier) xs) ≡ true
          → has k named ≡ true)
      → walk_db_types allow named [] xs p ≡ p
  unfolding has
  walk_db_types-same allow named [] p h = refl
  walk_db_types-same allow named (t ∷ xs) p h =
      rw (h t.identifier (ground (arith, eq_refl t.identifier)))
        (walk_db_types-same allow named xs p (λ k m. h k (ground (arith, m))))

filter-more :
    (known more xs : List String)
    → ((k : String) → has k known ≡ true → has k more ≡ true)
    → filter (λ t. not (has t known)) xs ≡ []
    → filter (λ t. not (has t more)) xs ≡ []
filter-more known more [] sub h = refl
filter-more known more (x ∷ xs) sub h = ground (arith, sub x, filter-more known more xs sub)

module _ (portable : Bool) (known more : List String)
    (sub : (k : String) → has k known ≡ true → has k more ≡ true) where
  missing_targets-none :
      (f : SnapshotField)
      → missing_targets known (bundle_field true f) ≡ []
      → missing_targets more (bundle_field portable f) ≡ []
  missing_targets-none f h = at (same_type f.type relation || same_type f.type multirelation) h
    where
      targets : List String
      targets = texts_at "targetContentTypeIdentifiers" f.options

      at :
          (b : Bool)
          → (if b then filter (λ t. not (has t known)) targets else []) ≡ []
          → (if b then filter (λ t. not (has t more)) targets else []) ≡ []
      at true h' = filter-more known more targets sub h'
      at false h' = refl

  check_targets-same :
      (t : String) (xs : List SnapshotField) (p : SchemaPlan)
      → AreFields known xs
      → check_targets more t (map (bundle_field portable) xs) p ≡ p
  check_targets-same t [] p a = refl
  check_targets-same t (f ∷ xs) p a =
      ap
        (λ ms. check_targets more t (map (bundle_field portable) xs) (
          if is_empty ms
          then p
          else block relation_target_not_found (field_path t f.identifier) [] p))
        (missing_targets-none f a.0.1)
      ∙ check_targets-same t xs p a.1

  check_all_targets-same :
      (ts : List SnapshotType) (p : SchemaPlan)
      → AreTypes known ts
      → check_all_targets more (map (bundle_type portable) ts) p ≡ p
  check_all_targets-same [] p a = refl
  check_all_targets-same (t ∷ ts) p a =
      ap (check_all_targets more (map (bundle_type portable) ts))
        (check_targets-same t.identifier t.fields p a.0)
      ∙ check_all_targets-same ts p a.3

-- The bundle that names every type and field of the database as they are, with their ids or without,
-- has nothing to plan, and no warning or blocker. The ids and the identifiers of the types are unique,
-- and so are those of the fields of a type; titles and slugs are unique fields, and relations lead to
-- types of the database.
pub plan_schema-bundle_type :
    (portable allow_destructive : Bool) (current : CurrentSchemaSnapshot)
    → IsKept current
    → plan_schema
        (some (map (bundle_type portable) current.content_types))
        current
        allow_destructive
      ≡ empty_plan
unfolding plan_schema
plan_schema-bundle_type portable allow current kept =
    let bts = map (bundle_type portable) current.content_types in
    let found = IsDistinct-AllFound (λ (t : SnapshotType). t.id) current.content_types kept.ids in
    let named =
      IsDistinct-AllFound (λ (t : SnapshotType). t.identifier) current.content_types kept.names in
    ap
      (λ (r : List String × List String). check_all_targets (known_types bts current) bts (
        walk_db_types allow (type_identifiers bts) r.1 current.content_types (
          walk_bundle_types allow current r.0 bts
            (block_renamed_types current.content_types bts empty_plan))))
      (renaming_types-none portable current.content_types current.content_types found)
    ∙ check_all_targets-same portable (identifiers current) (known_types bts current)
        (λ k m. ground (arith, has-append k (type_identifiers bts) (identifiers current)))
        current.content_types _ kept.types
    ∙ walk_db_types-same portable allow (type_identifiers bts) current.content_types _
        (λ k m. sym (has-bundle_type portable current.content_types k) ∙ m)
    ∙ ap (walk_bundle_types allow current [] bts) (
        block_renamed_types-none portable current.content_types current.content_types empty_plan
          found)
    ∙ walk_bundle_types-same portable current (identifiers current) allow current.content_types
        empty_plan named kept.types
