-- ===== src/Schema/SameFields.antt =====
-- The fields of a type that the bundle has as the database does: nothing to plan.
use boject_cms.Common.{
  if-true, ℕ, ◌≡◌, refl, sym, ap, ◌∙◌, String, ◌==◌, eq_refl, eqb_iff, Bool, true, false, ◌||◌,
  List, [], ◌∷◌, map, Option, none, some, if◌then◌else◌, arith, string_eq, has,
}
use mathlib.Core.Path.{subst}
use boject_cms.FieldType.{select, relation, multirelation, same_type}
use boject_cms.Schema.Types.{
  BundleField, SnapshotField, SnapshotType, FieldUsage, CurrentSchemaSnapshot, SchemaPlan,
  effective_bundle_unique,
}
use boject_cms.Schema.Options.{same_text?, same_bool, texts_at, shallow_options_equal}
use boject_cms.Schema.Fields.{
  going, name_and_order, no_changes, diff_required, diff_unique, diff_choices, diff_targets,
  diff_options, push_update, diff_field_update, diff_texts, and_then, plan_of,
}
use boject_cms.Schema.Plan.{
  renamed_field, renaming_fields, other_field, block_renamed_field, plan_field,
  block_renamed_fields, usage_of, walk_bundle_fields, walk_db_fields, diff_fields_for_type,
}
use boject_cms.Schema.Kept.{
  bundle_field, bundle_type, IsDistinct, AreFields, Found, AllFound, IsDistinct-AllFound,
  shallow_options_equal_refl, lacking_self, same_bool_refl, same_type_refl,
}

pub if-either {ℓ} : {A : Type ℓ} (b : Bool) (x y : A) → x ≡ y → (if b then x else y) ≡ y
if-either true x y h = h
if-either false x y h = refl

module _ (t : String) (portable : Bool) (f : SnapshotField) (u : Option FieldUsage)
    (p : SchemaPlan) where
  abbrev bf : BundleField
  bf = bundle_field portable f

  name_and_order-none : name_and_order t bf f u ≡ no_changes
  name_and_order-none = rw (eq_refl f.name, (eqb_iff f.order f.order).1 refl) refl

  diff_required-same : (n : ℕ) → diff_required t bf f u n no_changes p ≡ going no_changes p
  diff_required-same n = if-true _ _ _ (same_bool_refl f.required)

  diff_unique-same :
      effective_bundle_unique bf ≡ f.unique → diff_unique t bf f u no_changes p ≡ going no_changes p
  diff_unique-same good =
      let h : same_bool (effective_bundle_unique bf) f.unique ≡ true =
        subst (λ b. same_bool b f.unique ≡ true) (sym good) (same_bool_refl f.unique) in
      if-true _ _ _ h

  texts-same :
      (key : String) (used : String → ℕ) (refused : SchemaPlan)
      → diff_texts t bf f u key used refused no_changes p ≡ going no_changes p
  texts-same key used refused = rw (lacking_self (texts_at key f.options)) refl

  diff_choices-same : diff_choices t bf f u no_changes p ≡ going no_changes p
  diff_choices-same = if-either _ _ _ (texts-same "choices" _ _)

  diff_targets-same : diff_targets t bf f u no_changes p ≡ going no_changes p
  diff_targets-same = if-either _ _ _ (texts-same "targetContentTypeIdentifiers" _ _)

  diff_options-same : diff_options t bf f u no_changes p ≡ going no_changes p
  diff_options-same =
      let h : ((same_type f.type select
              || same_type f.type relation
              || same_type f.type multirelation)
            || shallow_options_equal f.options f.options)
          ≡ true =
        ground (arith, shallow_options_equal_refl f.options) in
      if-true _ _ _ h

  diff_field_update-same :
      (n : ℕ) → effective_bundle_unique bf ≡ f.unique → diff_field_update t bf f n u p ≡ p
  unfolding diff_field_update
  diff_field_update-same n good =
      let r₁ = ap (λ c. diff_required t bf f u n c p) name_and_order-none ∙ diff_required-same n in
      let r₂ = ap (λ x. and_then x (diff_unique t bf f u)) r₁ ∙ diff_unique-same good in
      let r₃ = ap (λ x. and_then x (diff_choices t bf f u)) r₂ ∙ diff_choices-same in
      let r₄ = ap (λ x. and_then x (diff_targets t bf f u)) r₃ ∙ diff_targets-same in
      let r₅ = ap (λ x. and_then x (diff_options t bf f u)) r₄ ∙ diff_options-same in
      let r₆ = ap (λ x. plan_of (and_then x (push_update t bf f u))) r₅ in
      if-true (same_type f.type f.type) _ _ (same_type_refl f.type) ∙ r₆

pub same_text?_refl : (o : Option String) → same_text? o o ≡ true
same_text?_refl none = refl
same_text?_refl (some s) = eq_refl s

module _ (portable : Bool) where
  renamed_field-none :
      (fs : List SnapshotField) (f : SnapshotField)
      → Found (λ (g : SnapshotField). g.id) fs f
      → renamed_field fs (bundle_field portable f) ≡ none
  renamed_field-none fs f h = at portable
    where
      at : (b : Bool) → renamed_field fs (bundle_field b f) ≡ none
      at true = refl
      at false =
          if-either _ _ _
            (ap (other_field f.identifier) h ∙ if-true _ none (some f) (eq_refl f.identifier))

  renaming_fields-none :
      (fs xs : List SnapshotField)
      → AllFound (λ (g : SnapshotField). g.id) fs xs
      → renaming_fields fs (map (bundle_field portable) xs) ≡ ([], [])
  renaming_fields-none fs [] h = refl
  renaming_fields-none fs (f ∷ xs) h =
      rw (renamed_field-none fs f h.0) (renaming_fields-none fs xs h.1)

  block_renamed_fields-none :
      (t : String) (fs xs : List SnapshotField) (p : SchemaPlan)
      → AllFound (λ (g : SnapshotField). g.id) fs xs
      → block_renamed_fields t fs (map (bundle_field portable) xs) p ≡ p
  block_renamed_fields-none t fs [] p h = refl
  block_renamed_fields-none t fs (f ∷ xs) p h =
      ap
        (λ o.
          block_renamed_fields t fs (map (bundle_field portable) xs)
            (block_renamed_field t (bundle_field portable f) o p))
        (renamed_field-none fs f h.0)
      ∙ block_renamed_fields-none t fs xs p h.1

  module _ (current : CurrentSchemaSnapshot) (t : SnapshotType) (known : List String) where
    walk_bundle_fields-same :
        (xs : List SnapshotField) (p : SchemaPlan)
        → AllFound (λ (g : SnapshotField). g.identifier) t.fields xs
        → AreFields known xs
        → walk_bundle_fields current
            (bundle_type portable t)
            t
            []
            (map (bundle_field portable) xs)
            p
          ≡ p
    unfolding has
    walk_bundle_fields-same [] p h a = refl
    walk_bundle_fields-same (f ∷ xs) p h a =
        let bt = bundle_type portable t in
        let rest = walk_bundle_fields current bt t [] (map (bundle_field portable) xs) in
        ap (λ o. rest (plan_field current bt t (bundle_field portable f) o p)) h.0
        ∙ ap rest (
            diff_field_update-same t.identifier portable f
              (usage_of current t.identifier f.identifier) p t.entry_count a.0.0)
        ∙ walk_bundle_fields-same xs p h.1 a.1

    walk_db_fields-same :
        (allow : Bool) (xs : List SnapshotField) (p : SchemaPlan)
        → ((k : String)
            → has k (map (λ (g : SnapshotField). g.identifier) xs) ≡ true
            → has k (map (λ (b : BundleField). b.identifier) (map (bundle_field portable) t.fields))
              ≡ true)
        → walk_db_fields allow current (bundle_type portable t) [] xs p ≡ p
    unfolding has
    walk_db_fields-same allow [] p h = refl
    walk_db_fields-same allow (f ∷ xs) p h =
        rw (h f.identifier (ground (arith, eq_refl f.identifier)))
          (walk_db_fields-same allow xs p (λ k m. h k (ground (arith, m))))

  has-bundle_field :
      (fs : List SnapshotField) (k : String)
      → has k (map (λ (g : SnapshotField). g.identifier) fs)
        ≡ has k (map (λ (b : BundleField). b.identifier) (map (bundle_field portable) fs))
  unfolding has
  has-bundle_field [] k = refl
  has-bundle_field (f ∷ fs) k = ap (λ b. f.identifier == k || b) (has-bundle_field fs k)

  pub diff_fields_for_type-same :
      (allow : Bool) (current : CurrentSchemaSnapshot) (t : SnapshotType) (known : List String)
      (p : SchemaPlan)
      → AreFields known t.fields
      → IsDistinct (λ (f : SnapshotField). f.id) t.fields
      → IsDistinct (λ (f : SnapshotField). f.identifier) t.fields
      → diff_fields_for_type allow current (bundle_type portable t) t p ≡ p
  unfolding diff_fields_for_type
  diff_fields_for_type-same allow current t known p fields ids names =
      let bt = bundle_type portable t in
      let found = IsDistinct-AllFound (λ (f : SnapshotField). f.id) t.fields ids in
      let named = IsDistinct-AllFound (λ (f : SnapshotField). f.identifier) t.fields names in
      ap
        (λ (r : List String × List String). walk_db_fields allow current bt r.1 t.fields (
          walk_bundle_fields current bt t r.0 bt.fields
            (block_renamed_fields t.identifier t.fields bt.fields p)))
        (renaming_fields-none t.fields t.fields found)
      ∙ walk_db_fields-same current t known allow t.fields _
          (λ k m. sym (has-bundle_field t.fields k) ∙ m)
      ∙ ap (walk_bundle_fields current bt t [] bt.fields)
          (block_renamed_fields-none t.identifier t.fields t.fields p found)
      ∙ walk_bundle_fields-same current t known t.fields p named fields
