-- ===== src/Create/Entry.antt =====
-- apps/cms/server/utils: createEntry.ts with assertUniqueFieldValues.ts, validateAndEnrichEntryData.ts
-- and prismaErrors.ts, and mergeEntryPatch.ts. The queries and the transaction are parameters: the
-- transaction is given what it writes, the entry with its version and the announcement.
use Prim.Native.String.{◌++◌ as ◌<>◌}
use boject_cms.Common.{
  ℕ, String, ◌==◌, Bool, true, false, ◌&&◌, not, List, [], ◌∷◌, Option, none, some, if◌then◌else◌,
  string_eq, has,
}
use boject_cms.FieldType.{FieldTypeName, text, number}
use boject_cms.Entry.Version.{ContentStatus, draft, published}
use boject_cms.Content.Json.{
  Json, Fields, no_fields, field, get, put, Outcome, ok, create_error, thrown, refuse_if, ◌>>=◌,
}
use boject_cms.Content.Options.{ContentField, apply_field_defaults}
use boject_cms.Content.Validate.{
  Platform, is_unset, validate_entry_data, extract_slug, extract_entry_title,
}
use boject_cms.Content.Enrich.{enrich_entry_data}
use boject_cms.Content.Validated.{identifiers}
use boject_cms.Create.Slug.{slugify}

-- An error that the database client throws: its code, and the columns that it names.
pub data DatabaseError : Type 0 where
  prisma_error : String → List String → DatabaseError
  other_error : DatabaseError

pub record TranslateOptions : Type 0 where
  pub unique_message : Option String
  pub not_found_message : Option String
  pub foreign_key_message : Option String

abbrev pub message_or : Option String → String → String
message_or none default = default
message_or (some m) default = m

unfoldable pub translate_prisma_error : {A : Type 0} → DatabaseError → TranslateOptions → Outcome A
translate_prisma_error other_error o = thrown
translate_prisma_error (prisma_error code target) o =
    if code == "P2002"
    then create_error 409 (message_or o.unique_message "Resource already exists")
    else if code == "P2003"
    then create_error 400 (message_or o.foreign_key_message "Referenced resource does not exist")
    else if code == "P2025"
    then create_error 404 (message_or o.not_found_message "Resource not found")
    else thrown

abbrev pub is_unique_type : FieldTypeName → Bool
is_unique_type text = true
is_unique_type number = true
is_unique_type _ = false

pub record NewEntry (N : Type 0) : Type 0 where
  pub entry_title : String
  pub entry_key : String
  pub slug : Option String
  pub content : Fields N
  pub status : ContentStatus
  pub published_at : Option ℕ

pub data Announcement : Type 0 where
  entry_published draft_sync : Announcement

pub data Committed (E : Type 0) : Type 0 where
  committed : E → Committed E
  rolled_back : DatabaseError → Committed E

-- What the code reads and writes, in one content type.
pub record EntryStore (N E : Type 0) : Type 0 where
  -- `queryConflicts`: whether some version holds the value in the field.
  pub has_value : ContentField N → Json N → Bool
  pub load_identifiers : List String → String → Option String
  -- `contentEntry.findFirst({ where: { contentTypeId, entryKey } })`.
  pub has_key : String → Bool
  pub transaction : NewEntry N → Announcement → Committed E

abbrev pub status_or_draft : Option ContentStatus → ContentStatus
status_or_draft none = draft
status_or_draft (some s) = s

abbrev pub announcement_of : ContentStatus → Announcement
announcement_of published = entry_published
announcement_of _ = draft_sync

abbrev pub published_at_of : ContentStatus → ℕ → Option ℕ
published_at_of published now = some now
published_at_of _ now = none

module _ {N E : Type 0} (p : Platform N) (store : EntryStore N E) where
  abbrev pub conflicts : ContentField N → Option (Json N) → Bool
  conflicts f none = false
  conflicts f (some v) = not (is_unset (some v)) && store.has_value f v

  unfoldable pub assert_unique_field_values : Fields N → List (ContentField N) → Outcome Bool
  assert_unique_field_values entry [] = ok true
  assert_unique_field_values entry (f ∷ fs) =
      let rest = assert_unique_field_values entry fs in
      if (f.unique && is_unique_type f.type) && conflicts f (get f.identifier entry)
      then create_error 409 (f.name <> " must be unique")
      else rest

  unfoldable pub validate_and_enrich_entry_data :
      Fields N → List (ContentField N) → Outcome (Fields N)
  unfolding assert_unique_field_values
  validate_and_enrich_entry_data raw fields = do
    validated ← validate_entry_data p raw fields
    _ ← assert_unique_field_values validated fields
    ok (enrich_entry_data store.load_identifiers validated fields)

  abbrev pub unique_options : TranslateOptions
  unique_options = record {
    unique_message =
        some "An entry with this slug, title, or entryKey already exists for this content type";
    not_found_message = none;
    foreign_key_message = none;
  }

  abbrev pub names_entry_key : DatabaseError → Bool
  names_entry_key other_error = false
  names_entry_key (prisma_error code target) = code == "P2002" && has "entryKey" target

  unfoldable pub settle_commit : Committed E → Outcome E
  unfolding translate_prisma_error
  settle_commit (committed e) = ok e
  settle_commit (rolled_back error) =
      if names_entry_key error
      then create_error 409 "entryKey conflict"
      else translate_prisma_error error unique_options

  abbrev pub new_entry :
      (String → String) → ContentStatus → ℕ → List (ContentField N) → Fields N → NewEntry N
  new_entry to_lower_case status now fields enriched = record {
    entry_title = extract_entry_title enriched fields;
    entry_key = slugify to_lower_case (extract_entry_title enriched fields);
    slug = extract_slug enriched fields;
    content = enriched;
    status = status;
    published_at = published_at_of status now;
  }

  -- From the key on.
  unfoldable pub insert_entry : NewEntry N → Outcome E
  unfolding settle_commit
  insert_entry new = refuse_if (new.entry_key == "") "entryTitle contains no slug-safe characters" (
      if store.has_key new.entry_key
      then create_error 409 "entryKey conflict"
      else settle_commit (store.transaction new (announcement_of new.status)))

  unfoldable pub create_entry :
      (String → String) → ℕ → List (ContentField N) → Fields N → Option ContentStatus → Outcome E
  unfolding validate_and_enrich_entry_data insert_entry
  create_entry to_lower_case now fields raw status = do
    seeded ← apply_field_defaults p.schemas raw fields
    enriched ← validate_and_enrich_entry_data seeded fields
    insert_entry (new_entry to_lower_case (status_or_draft status) now fields enriched)

module _ {N : Type 0} where
  -- `{ ...workingData, ...patch }`.
  unfoldable pub overlay : Fields N → Fields N → Fields N
  overlay working no_fields = working
  overlay working (field k v patch) = overlay (put k v working) patch

  unfoldable pub check_known : List String → Fields N → Outcome Bool
  check_known known no_fields = ok true
  check_known known (field k v patch) =
      let rest = check_known known patch in
      refuse_if (not (has k known)) ("Unknown field: " <> k) rest

  unfoldable pub merge_entry_patch :
      Fields N → Fields N → List (ContentField N) → Outcome (Fields N)
  unfolding overlay check_known
  merge_entry_patch working patch fields =
      check_known (identifiers fields) patch >>= λ _. ok (overlay working patch)
