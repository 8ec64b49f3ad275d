-- ===== src/Schema/Removal.antt =====
-- What a plan removes.
use boject_cms.Common.{
  ◌≡◌, refl, String, ◌==◌, eq_refl, eqb, Bool, true, false, ◌&&◌, ◌||◌, not, List, [], ◌∷◌, ◌++◌,
  map, any, all, Option, none, some, if◌then◌else◌, arith, string_eq, has, Bool-cases, inl, inr,
}
use boject_cms.Schema.Types.{
  BundleField, BundleContentType, SnapshotField, SnapshotType, FieldUsage, CurrentSchemaSnapshot,
  TypeRemoval, FieldRemoval, SchemaPlan, empty_plan,
}
use boject_cms.Schema.Plan.{
  renaming_fields, plan_field, plan_type, removal_of, usage_of, walk_bundle_fields, remove_field,
  walk_db_fields, diff_fields_for_type, diff_type_metadata, push_type_update, renaming_types,
  walk_bundle_types, remove_type, walk_db_types, types_or_empty, type_identifiers, known_types,
  plan_schema,
}
use boject_cms.Schema.Frames.{
  Frame, frame, Frame-refl, Frame-trans, if-Frame, diff_field_update-Frame,
  block_renamed_fields-Frame, block_renamed_types-Frame, check_all_targets-Frame,
}

-- The removals of a plan are allowed: of types without entries that the bundle does not name, and of
-- fields that a bundle type of that name does not have.
abbrev pub is_type_removal_safe : Bool → List BundleContentType → TypeRemoval → Bool
is_type_removal_safe allow_destructive bts r =
    allow_destructive && eqb r.entry_count 0 && not (has r.identifier (type_identifiers bts))

abbrev pub field_identifiers : BundleContentType → List String
field_identifiers bt = map (λ (b : BundleField). b.identifier) bt.fields

abbrev pub is_field_removal_safe : Bool → List BundleContentType → FieldRemoval → Bool
is_field_removal_safe allow_destructive bts r =
    allow_destructive
    && any
        (λ bt.
          bt.identifier == r.content_type_identifier
          && not (has r.field_identifier (field_identifiers bt)))
        bts

all-append {ℓ} :
    {A : Type ℓ} (p : A → Bool) (xs ys : List A) → all p (xs ++ ys) ≡ (all p xs && all p ys)
all-append p [] ys = refl
all-append p (x ∷ xs) ys = ground (arith, all-append p xs ys)

module _ (allow : Bool) (bts : List BundleContentType) where
  abbrev IsSafe : SchemaPlan → Type 0
  IsSafe p =
      (all (is_type_removal_safe allow bts) p.type_removals ≡ true)
      × (all (is_field_removal_safe allow bts) p.field_removals ≡ true)

  Frame-IsSafe : (a b : SchemaPlan) → Frame a b → IsSafe b → IsSafe a
  Frame-IsSafe a b (frame t f) s = (rw t s.0, rw f s.1)

  if-IsSafe : (b : Bool) (x y : SchemaPlan) → IsSafe x → IsSafe y → IsSafe (if b then x else y)
  if-IsSafe true x y s t = s
  if-IsSafe false x y s t = t

  module _ (current : CurrentSchemaSnapshot) (bt : BundleContentType) where
    plan_field-Frame :
        (db : SnapshotType) (bf : BundleField) (o : Option SnapshotField) (p : SchemaPlan)
        → Frame (plan_field current bt db bf o p) p
    plan_field-Frame db bf none p = frame (ground arith) (ground arith)
    plan_field-Frame db bf (some f) p =
        diff_field_update-Frame bt.identifier bf f (usage_of current bt.identifier bf.identifier)
          db.entry_count p

    walk_bundle_fields-Frame :
        (db : SnapshotType) (renaming : List String) (bfs : List BundleField) (p : SchemaPlan)
        → Frame (walk_bundle_fields current bt db renaming bfs p) p
    walk_bundle_fields-Frame db renaming [] p = Frame-refl p
    walk_bundle_fields-Frame db renaming (bf ∷ bfs) p =
        Frame-trans (walk_bundle_fields-Frame db renaming bfs _)
          (if-Frame (has bf.identifier renaming) p _ p (Frame-refl p) (plan_field-Frame db bf _ p))

    -- The bundle type is one of the bundle.
    module _ (listed : (q : BundleContentType → Bool) → q bt ≡ true → any q bts ≡ true) where
      remove_field-IsSafe :
          (f : SnapshotField) (u : Option FieldUsage) (p : SchemaPlan)
          → has f.identifier (field_identifiers bt) ≡ false
          → IsSafe p
          → IsSafe (remove_field allow bt f u p)
      remove_field-IsSafe f u p n s =
          let r = removal_of bt f u in
          let ok : any
                (λ b. b.identifier == bt.identifier && not (has f.identifier (field_identifiers b)))
                bts
              ≡ true =
            listed _ (rw (eq_refl bt.identifier, n) refl) in
          ground (arith, all-append (is_field_removal_safe allow bts) p.field_removals (r ∷ []), ok)

      walk_db_fields-IsSafe :
          (renamed : List String) (fs : List SnapshotField) (p : SchemaPlan)
          → IsSafe p
          → IsSafe (walk_db_fields allow current bt renamed fs p)
      walk_db_fields-IsSafe renamed [] p s = s
      walk_db_fields-IsSafe renamed (f ∷ fs) p s =
          walk_db_fields-IsSafe renamed fs _
            (elim (Bool-cases (has f.identifier (field_identifiers bt) || has f.id renamed)) [
              | inl skip ↦ rw skip s
              | inr go ↦ rw go (
                  remove_field-IsSafe f (usage_of current bt.identifier f.identifier) p
                    (ground arith) s)
            ])

      diff_fields_for_type-IsSafe :
          (db : SnapshotType) (p : SchemaPlan)
          → IsSafe p
          → IsSafe (diff_fields_for_type allow current bt db p)
      unfolding diff_fields_for_type
      diff_fields_for_type-IsSafe db p s =
          walk_db_fields-IsSafe (renaming_fields db.fields bt.fields).1 db.fields _ (
            Frame-IsSafe _ p
              (Frame-trans (walk_bundle_fields-Frame db _ bt.fields _)
                (block_renamed_fields-Frame bt.identifier db.fields bt.fields p))
              s)

      plan_type-IsSafe :
          (o : Option SnapshotType) (p : SchemaPlan)
          → IsSafe p
          → IsSafe (plan_type allow current bt o p)
      plan_type-IsSafe none p s = s
      plan_type-IsSafe (some d) p s =
          diff_fields_for_type-IsSafe d (push_type_update (diff_type_metadata bt d) p) (
            Frame-IsSafe (push_type_update (diff_type_metadata bt d) p) p
              (frame (ground arith) (ground arith)) s)

  walk_bundle_types-IsSafe :
      (current : CurrentSchemaSnapshot) (renaming : List String) (us : List BundleContentType)
      (p : SchemaPlan)
      → ((q : BundleContentType → Bool) → any q us ≡ true → any q bts ≡ true)
      → IsSafe p
      → IsSafe (walk_bundle_types allow current renaming us p)
  walk_bundle_types-IsSafe current renaming [] p sub s = s
  walk_bundle_types-IsSafe current renaming (bt ∷ us) p sub s =
      walk_bundle_types-IsSafe current renaming us _ (λ q h. sub q (ground (arith, h)))
        (if-IsSafe (has bt.identifier renaming) p _ s
          (plan_type-IsSafe current bt (λ q h. sub q (rw h refl)) _ p s))

  remove_type-IsSafe :
      (t : SnapshotType) (p : SchemaPlan)
      → has t.identifier (type_identifiers bts) ≡ false
      → IsSafe p
      → IsSafe (remove_type allow t p)
  remove_type-IsSafe t p n s = ground (
    arith,
    all-append (is_type_removal_safe allow bts) p.type_removals
        (record { id = t.id; identifier = t.identifier; entry_count = t.entry_count } ∷ []),
  )

  walk_db_types-IsSafe :
      (renamed : List String) (ts : List SnapshotType) (p : SchemaPlan)
      → IsSafe p
      → IsSafe (walk_db_types allow (type_identifiers bts) renamed ts p)
  walk_db_types-IsSafe renamed [] p s = s
  walk_db_types-IsSafe renamed (t ∷ ts) p s =
      walk_db_types-IsSafe renamed ts _
        (elim (Bool-cases (has t.identifier (type_identifiers bts) || has t.id renamed)) [
          | inl skip ↦ rw skip s
          | inr go ↦ rw go (remove_type-IsSafe t p (ground arith) s)
        ])

-- Whatever the bundle and the database, every type that a plan removes has no entries and is not named
-- by the bundle, every field that it removes is missing in a type of the bundle with the name of its
-- type, and it removes nothing without the permission to.
pub plan_schema-removals :
    (content_types : Option (List BundleContentType)) (current : CurrentSchemaSnapshot)
    (allow_destructive : Bool)
    → (all
          (is_type_removal_safe allow_destructive (types_or_empty content_types))
          (plan_schema content_types current allow_destructive).type_removals
        ≡ true)
      × (all
            (is_field_removal_safe allow_destructive (types_or_empty content_types))
            (plan_schema content_types current allow_destructive).field_removals
          ≡ true)
unfolding plan_schema
plan_schema-removals content_types current allow =
    let bts = types_or_empty content_types in
    let renames = renaming_types current.content_types bts in
    Frame-IsSafe allow bts _ _ (check_all_targets-Frame (known_types bts current) bts _) (
      walk_db_types-IsSafe allow bts renames.1 current.content_types _ (
        walk_bundle_types-IsSafe allow bts current renames.0 bts _ (λ q h. h)
          (Frame-IsSafe allow bts _ empty_plan
            (block_renamed_types-Frame current.content_types bts empty_plan) (refl, refl))))
