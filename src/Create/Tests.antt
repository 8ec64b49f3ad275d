-- ===== src/Create/Tests.antt =====
-- Instances at a type with a title and a switch that has a default.
use Prim.Native.String.{◌++◌ as ◌<>◌}
use boject_cms.Common.{
  ℕ, String, ◌==◌, leb, Bool, true, false, ◌≡◌, refl, List, [], ◌∷◌, none, some, ◌<|>◌,
  if◌then◌else◌, string_eq, has,
}
use boject_cms.FieldType.{FieldTypeName, entry_title, text, boolean}
use boject_cms.Entry.Version.{published}
use boject_cms.Content.Json.{Json, null, bool, str, Fields, no_fields, field, get, ok}
use boject_cms.Content.Options.{
  ContentField, Schemas, apply_field_defaults, defaults_for_fields, parse_field_options,
}
use boject_cms.Content.Validate.{
  Platform, check_field, check_present, check_value, check_text, check_boolean, validate_entry_data,
  extract_entry_title,
}
use boject_cms.Content.Enrich.{enrich_entry_data}
use boject_cms.Create.Slug.{slugify}
use boject_cms.Create.SlugLaws.{is_slug, slugify-is_slug}
use boject_cms.Create.Entry.{
  Announcement, entry_published, draft_sync, EntryStore, committed, create_entry, merge_entry_patch,
}
use boject_cms.Create.EntryLaws.{IsCreated, create_entry-IsCreated}
use boject_cms.Create.Overlays.{apply_field_defaults_lem}

abbrev schemas : Schemas ℕ
schemas = record {
  select_object = λ o. none;
  boolean_object = λ o. some (some true);
  number_object = λ o. none;
  relation_object = λ o. none;
  richtext_object = λ o. none;
}

abbrev platform : Platform ℕ
platform = record {
  is_finite = λ x. true;
  in_unit = λ x. leb x 1;
  half = 1;
  is_date = λ s. true;
  new_url = λ s. none;
  schemas = schemas;
  entry_exists = λ t e. false;
}

abbrev a_field : String → FieldTypeName → ContentField ℕ
a_field i t = record {
  identifier = i;
  name = i;
  type = t;
  required = true;
  unique = false;
  options = none;
}

abbrev all_fields : List (ContentField ℕ)
all_fields = a_field "title" entry_title ∷ a_field "shown" boolean ∷ []

-- The value that some version holds.
abbrev is_a : Json ℕ → Bool
is_a (str s) = s == "a"
is_a _ = false

-- What the transaction answers.
abbrev announced : Announcement → String → String
announced entry_published key = key <> ", announced"
announced draft_sync key = key <> ", synced"

abbrev store : EntryStore ℕ String
store = record {
  has_value = λ f v. is_a v;
  load_identifiers = λ ids i. none;
  has_key = λ k. k == "taken";
  transaction = λ new a. committed (announced a new.entry_key);
}

abbrev lower : String → String
lower s = if s == "Hello, world!" then "hello, world!" else s

abbrev given : Fields ℕ
given = field "title" (str "Hello, world!") no_fields

abbrev seeded : Fields ℕ
seeded = field "title" (str "Hello, world!") (field "shown" (bool true) no_fields)

seeded_lem : apply_field_defaults schemas given all_fields ≡ ok seeded
unfolding apply_field_defaults parse_field_options
seeded_lem = refl

slugify-is_slug_example :
    (is_slug (slugify lower "Hello, world!") ≡ true)
    × (slugify lower (slugify lower "Hello, world!") ≡ slugify lower "Hello, world!")
unfolding slugify
slugify-is_slug_example = slugify-is_slug lower "Hello, world!" refl

apply_field_defaults_lem_example :
    (defaults : Fields ℕ) × (defaults_for_fields schemas all_fields ≡ ok defaults)
    × (get "shown" seeded ≡ (get "shown" given <|> get "shown" defaults))
apply_field_defaults_lem_example =
    apply_field_defaults_lem schemas given seeded all_fields "shown" seeded_lem

-- A type whose text field is unique.
abbrev unique_fields : List (ContentField ℕ)
unique_fields = record (a_field "sku" text) { unique = true } ∷ all_fields

abbrev given_sku : Fields ℕ
given_sku = field "sku" (str "b") given

created_sku :
    create_entry platform store lower 5 unique_fields given_sku (some published)
    ≡ ok "hello-world, announced"
unfolding create_entry apply_field_defaults parse_field_options validate_entry_data check_field
    check_present check_value check_text check_boolean slugify extract_entry_title enrich_entry_data
created_sku = refl

create_entry-IsCreated_example :
    IsCreated platform store lower 5 unique_fields given_sku
      (some published)
      "hello-world, announced"
create_entry-IsCreated_example =
    create_entry-IsCreated platform store lower 5 unique_fields given_sku (some published)
      "hello-world, announced" created_sku

abbrev patch : Fields ℕ
patch = field "shown" null no_fields

merged : merge_entry_patch seeded patch all_fields ≡ ok (field "title" (str "Hello, world!") patch)
unfolding merge_entry_patch has
merged = refl
