-- ===== src/Schema/Kept.antt =====
-- The bundle that says what the database has, what the database keeps, and lookups in its tables.
use boject_cms.Common.{
  ◌≡◌, refl, String, ◌==◌, eq_refl, Bool, true, false, List, [], ◌∷◌, map, all, Option, none, some,
  if◌then◌else◌, arith, string_eq, has,
}
use boject_cms.FieldType.{
  FieldTypeName, entry_title, slug, text, textarea, number, boolean, datetime, select, richtext,
  relation, multirelation, image, same_type,
}
use boject_cms.Schema.Types.{
  OptionValue, texts, scalar, object, Options, BundleField, BundleContentType, SnapshotField,
  SnapshotType, CurrentSchemaSnapshot, find_last?, effective_bundle_unique,
}
use boject_cms.Schema.Options.{
  same_bool, same_texts, same_json, option_at, or_empty, shallow_options_equal,
}
use boject_cms.Schema.Fields.{lacking}
use boject_cms.Schema.Plan.{missing_targets}

-- The bundle that names the fields and types of the database, with their ids or, where it is portable,
-- without.
abbrev pub bundle_field : Bool → SnapshotField → BundleField
bundle_field portable f = record {
  id = if portable then none else some f.id;
  identifier = f.identifier;
  name = f.name;
  type = f.type;
  required = f.required;
  unique = some f.unique;
  order = f.order;
  options = f.options;
}

abbrev pub bundle_type : Bool → SnapshotType → BundleContentType
bundle_type portable t = record {
  id = if portable then none else some t.id;
  identifier = t.identifier;
  name = t.name;
  description = t.description;
  fields = map (bundle_field portable) t.fields;
}

-- Keys that are told apart.
abbrev pub IsDistinct {ℓ} : {A : Type ℓ} → (A → String) → List A → Type 0
IsDistinct key [] = Unit
IsDistinct key (x ∷ xs) = (has (key x) (map key xs) ≡ false) × IsDistinct key xs

abbrev pub identifiers : CurrentSchemaSnapshot → List String
identifiers current = map (λ (t : SnapshotType). t.identifier) current.content_types

-- What the database keeps of a field: titles and slugs are unique, and relations lead to its types.
abbrev pub IsField : List String → SnapshotField → Type 0
IsField known f =
    (effective_bundle_unique (bundle_field true f) ≡ f.unique)
    × (missing_targets known (bundle_field true f) ≡ [])

abbrev pub AreFields : List String → List SnapshotField → Type 0
AreFields known [] = Unit
AreFields known (f ∷ fs) = IsField known f × AreFields known fs

-- Of a type: the ids and the identifiers of its fields are unique.
abbrev pub AreTypes : List String → List SnapshotType → Type 0
AreTypes known [] = Unit
AreTypes known (t ∷ ts) =
    AreFields known t.fields
    × IsDistinct (λ (f : SnapshotField). f.id) t.fields
    × IsDistinct (λ (f : SnapshotField). f.identifier) t.fields
    × AreTypes known ts

pub record IsKept (current : CurrentSchemaSnapshot) : Type 0 where
  pub types : AreTypes (identifiers current) current.content_types
  pub ids : IsDistinct (λ (t : SnapshotType). t.id) current.content_types
  pub names : IsDistinct (λ (t : SnapshotType). t.identifier) current.content_types

module _ {ℓ} {A : Type ℓ} (key : A → String) where
  abbrev pub Found : List A → A → Type ℓ
  Found full x = find_last? (λ y. key y == key x) full ≡ some x

  abbrev pub AllFound : List A → List A → Type ℓ
  AllFound full [] = Unit
  AllFound full (x ∷ xs) = Found full x × AllFound full xs

  find_last-none :
      (k : String) (xs : List A)
      → has k (map key xs) ≡ false
      → find_last? (λ y. key y == k) xs ≡ none
  unfolding has
  find_last-none k [] h = refl
  find_last-none k (x ∷ xs) h =
      let miss : key x == k ≡ false = ground arith in
      rw (find_last-none k xs (ground arith), miss) refl

  AllFound-more : (x : A) (full xs : List A) → AllFound full xs → AllFound (x ∷ full) xs
  AllFound-more x full [] h = tt
  AllFound-more x full (y ∷ ys) h = (rw h.0 refl, AllFound-more x full ys h.1)

  pub IsDistinct-AllFound : (xs : List A) → IsDistinct key xs → AllFound xs xs
  IsDistinct-AllFound [] d = tt
  IsDistinct-AllFound (x ∷ xs) d = (
    rw (find_last-none (key x) xs d.0, eq_refl (key x)) refl,
    AllFound-more x xs xs (IsDistinct-AllFound xs d.1),
  )

same_texts_refl : (xs : List String) → same_texts xs xs ≡ true
same_texts_refl [] = refl
same_texts_refl (x ∷ xs) = ground (arith, eq_refl x, same_texts_refl xs)

same_json_refl : (v : Option OptionValue) → same_json v v ≡ true
same_json_refl none = refl
same_json_refl (some (texts xs)) = same_texts_refl xs
same_json_refl (some (scalar s)) = eq_refl s
same_json_refl (some (object s)) = eq_refl s

all-same :
    (o p : Options)
    → all (λ (q : String × OptionValue). same_json (option_at q.0 o) (option_at q.0 o)) p ≡ true
all-same o [] = refl
all-same o ((k, v) ∷ p) = ground (arith, same_json_refl (option_at k o), all-same o p)

pub shallow_options_equal_refl : (o : Option Options) → shallow_options_equal o o ≡ true
shallow_options_equal_refl o = ground (arith, all-same (or_empty o) (or_empty o))

-- Nothing is lacking of a list in itself.
filter-lacking :
    (ys xs : List String) → ((k : String) → has k xs ≡ true → has k ys ≡ true) → lacking ys xs ≡ []
unfolding has
filter-lacking ys [] h = refl
filter-lacking ys (x ∷ xs) h =
    rw (h x (ground (arith, eq_refl x))) (filter-lacking ys xs (λ k m. h k (ground (arith, m))))

pub lacking_self : (xs : List String) → lacking xs xs ≡ []
lacking_self xs = filter-lacking xs xs (λ k m. m)

pub same_bool_refl : (b : Bool) → same_bool b b ≡ true
same_bool_refl true = refl
same_bool_refl false = refl

pub same_type_refl : (t : FieldTypeName) → same_type t t ≡ true
same_type_refl entry_title = refl
same_type_refl slug = refl
same_type_refl text = refl
same_type_refl textarea = refl
same_type_refl number = refl
same_type_refl boolean = refl
same_type_refl datetime = refl
same_type_refl select = refl
same_type_refl richtext = refl
same_type_refl relation = refl
same_type_refl multirelation = refl
same_type_refl image = refl
