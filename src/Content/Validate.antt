-- ===== src/Content/Validate.antt =====
-- apps/cms/server/utils/validateEntryData.ts: the validation of the values of an entry. Numbers, the
-- date parser, the URL parser, the schemas of options and the look-up of an entry in the database
-- are parameters; the look-ups of one validation see one state of the database.
use Prim.Native.String.{◌++◌ as ◌<>◌}
use boject_cms.Common.{
  String, ◌==◌, Bool, true, false, ◌&&◌, ◌||◌, not, List, [], ◌∷◌, Option, none, some,
  if◌then◌else◌, string_eq, has,
}
use boject_cms.FieldType.{
  FieldTypeName, entry_title, slug, text, textarea, number, boolean, datetime, select, richtext,
  relation, multirelation, image, same_type,
}
use boject_cms.Content.Json.{
  Json, null, bool, num, str, arr, obj, Items, nil, cons, Fields, no_fields, field, get, put,
  Outcome, ok, create_error, refuse_if, ◌>>=◌,
}
use boject_cms.Content.Text.{trim, join, is_uuid}
use boject_cms.Content.Richtext.{
  Url, Allowed, no_text, str_of, is_list, validate_richtext_references,
}
use boject_cms.Content.Options.{
  ContentField, FieldOptions, select_options, relation_options, richtext_options, Schemas,
  parse_field_options,
}

-- What the code uses of its surroundings.
pub record Platform (N : Type 0) : Type 0 where
  pub is_finite : N → Bool
  -- `0 <= x && x <= 1`.
  pub in_unit : N → Bool
  pub half : N
  -- `!isNaN(Date.parse(text))`.
  pub is_date : String → Bool
  pub new_url : String → Option Url
  pub schemas : Schemas N
  -- `prisma.contentEntry.findFirst({ where: { id, contentTypeId } })`, by the type and the id.
  pub entry_exists : String → String → Bool

pub record Reference : Type 0 where
  pub content_type_id : String
  pub entry_id : String

abbrev pub is_unset : {N : Type 0} → Option (Json N) → Bool
is_unset none = true
is_unset (some null) = true
is_unset (some (str s)) = s == ""
is_unset (some v) = false

abbrev pub choices_of : {N : Type 0} → FieldOptions N → List String
choices_of (select_options choices d) = choices
choices_of _ = []

abbrev pub targets_of : {N : Type 0} → FieldOptions N → List String
targets_of (relation_options ids) = ids
targets_of _ = []

abbrev pub allowed_of : {N : Type 0} → FieldOptions N → Allowed
allowed_of (richtext_options embeds links) = record { embed_types = embeds; link_types = links }
allowed_of _ = record { embed_types = []; link_types = [] }

abbrev pub reference_value : {N : Type 0} → Reference → Json N
reference_value r =
    obj (field "contentTypeId" (str r.content_type_id) (field "entryId" (str r.entry_id) no_fields))

-- The two ids of a reference, where both are uuids.
unfoldable pub reference_of : {N : Type 0} → String → Fields N → Outcome Reference
reference_of message rel =
    let type = get "contentTypeId" rel in
    let entry = get "entryId" rel in
    refuse_if (not (is_uuid type) || not (is_uuid entry)) message
      (ok (record { content_type_id = str_of type; entry_id = str_of entry }))

module _ {N : Type 0} (p : Platform N) where
  unfoldable pub check_text : ContentField N → Json N → Outcome (Json N)
  check_text f (str s) = ok (str s)
  check_text f _ = create_error 400 (f.name <> " must be a string")

  unfoldable pub check_number : ContentField N → Json N → Outcome (Json N)
  check_number f (num x) =
      refuse_if (not (p.is_finite x)) (f.name <> " must be a number") (ok (num x))
  check_number f _ = create_error 400 (f.name <> " must be a number")

  unfoldable pub check_boolean : ContentField N → Json N → Outcome (Json N)
  check_boolean f (bool b) = ok (bool b)
  check_boolean f _ = create_error 400 (f.name <> " must be a boolean")

  unfoldable pub check_datetime : ContentField N → Json N → Outcome (Json N)
  check_datetime f (str s) =
      refuse_if (not (p.is_date s)) (f.name <> " must be a valid ISO-8601 date string") (ok (str s))
  check_datetime f _ = create_error 400 (f.name <> " must be a valid ISO-8601 date string")

  unfoldable pub check_select : ContentField N → Json N → Outcome (Json N)
  check_select f (str s) = do
    opts ← parse_field_options p.schemas f.type f.options
    refuse_if (is_list (choices_of opts) && not (has s (choices_of opts)))
        (f.name <> (" must be one of: " <> join ", " (choices_of opts))) (ok (str s))
  check_select f _ = create_error 400 (f.name <> " must be a string")

  unfoldable pub check_richtext : ContentField N → Json N → Outcome (Json N)
  check_richtext f (obj doc) = do
    opts ← parse_field_options p.schemas f.type f.options
    validate_richtext_references p.new_url f.name (obj doc) (allowed_of opts) >>= λ _. ok (obj doc)
  check_richtext f _ = create_error 400 (f.name <> " must be a JSON object")

  -- The tests on a reference that names uuids: its type is allowed, and the entry is there.
  unfoldable pub check_allowed :
      {A : Type 0} → ContentField N → FieldOptions N → Reference → Outcome A → Outcome A
  check_allowed f opts r next =
      refuse_if (is_list (targets_of opts) && not (has r.content_type_id (targets_of opts)))
        (f.name
          <> (" references a content type that is not allowed for this field (contentTypeId: "
              <> (r.content_type_id <> ")")))
        next

  unfoldable pub check_exists : {A : Type 0} → ContentField N → Reference → Outcome A → Outcome A
  check_exists f r next =
      refuse_if (not (p.entry_exists r.content_type_id r.entry_id))
        (f.name <> " references an entry that does not exist") next

  unfoldable pub check_relation : ContentField N → Json N → Outcome (Json N)
  check_relation f (obj rel) = do
    r ← reference_of (f.name <> " must have valid contentTypeId and entryId UUIDs") rel
    opts ← parse_field_options p.schemas f.type f.options
    check_allowed f opts r (check_exists f r (ok (reference_value r)))
  check_relation f _ =
      create_error 400 (f.name <> " must be an object with contentTypeId and entryId")

  unfoldable pub item_reference : ContentField N → Json N → Outcome Reference
  item_reference f (obj rel) =
      reference_of (f.name <> " items must have valid contentTypeId and entryId UUIDs") rel
  item_reference f _ =
      create_error 400 (f.name <> " items must be objects with contentTypeId and entryId")

  unfoldable pub check_item :
      ContentField N → FieldOptions N → List String → Json N → Outcome Reference
  check_item f opts seen item = do
    r ← item_reference f item
    check_allowed f opts r (
        refuse_if (has r.entry_id seen) (f.name <> " contains duplicate entry references")
          (check_exists f r (ok r)))

  -- The loop over the items, with `seenEntryIds`; what it returns is `validatedRefs`.
  unfoldable pub check_items :
      ContentField N → FieldOptions N → List String → Items N → Outcome (Items N)
  check_items f opts seen nil = ok nil
  check_items f opts seen (cons x xs) = do
    r ← check_item f opts seen x
    check_items f opts (r.entry_id ∷ seen) xs >>= λ rest. ok (cons (reference_value r) rest)

  unfoldable pub check_multirelation : ContentField N → Json N → Outcome (Json N)
  check_multirelation f (arr xs) = do
    opts ← parse_field_options p.schemas f.type f.options
    check_items f opts [] xs >>= λ refs. ok (arr refs)
  check_multirelation f _ = create_error 400 (f.name <> " must be an array")

  -- `typeof v !== 'number' || !Number.isFinite(v)`.
  abbrev pub no_number : Option (Json N) → Bool
  no_number (some (num x)) = not (p.is_finite x)
  no_number _ = true

  abbrev pub original_name : Option (Json N) → Json N
  original_name (some (str s)) = str s
  original_name _ = null

  abbrev pub focal_point : Option (Json N) → Json N
  focal_point (some (num x)) = if p.in_unit x then num x else num p.half
  focal_point _ = num p.half

  abbrev pub value_or_null : Option (Json N) → Json N
  value_or_null none = null
  value_or_null (some v) = v

  abbrev pub image_value : Fields N → Fields N
  image_value img = field "storageKey" (value_or_null (get "storageKey" img)) (
      field "mimeType" (value_or_null (get "mimeType" img)) (
        field "width" (value_or_null (get "width" img)) (
          field "height" (value_or_null (get "height" img)) (
            field "fileSize" (value_or_null (get "fileSize" img)) (
              field "originalName" (original_name (get "originalName" img)) (
                field "focalPointX" (focal_point (get "focalPointX" img))
                  (field "focalPointY" (focal_point (get "focalPointY" img)) no_fields)))))))

  unfoldable pub check_image : ContentField N → Json N → Outcome (Json N)
  check_image f (obj img) =
      refuse_if (no_text (get "storageKey" img)) (f.name <> " must have a storageKey") (
        refuse_if (no_text (get "mimeType" img)) (f.name <> " must have a mimeType") (
          refuse_if (no_number (get "width" img)) (f.name <> " must have a numeric width") (
            refuse_if (no_number (get "height" img)) (f.name <> " must have a numeric height") (
              refuse_if (no_number (get "fileSize" img)) (f.name <> " must have a numeric fileSize")
                (ok (obj (image_value img)))))))
  check_image f _ = create_error 400 (f.name <> " must be an object")

  unfoldable pub check_value : FieldTypeName → ContentField N → Json N → Outcome (Json N)
  check_value entry_title f v = check_text f v
  check_value slug f v = check_text f v
  check_value text f v = check_text f v
  check_value textarea f v = check_text f v
  check_value number f v = check_number f v
  check_value boolean f v = check_boolean f v
  check_value datetime f v = check_datetime f v
  check_value select f v = check_select f v
  check_value richtext f v = check_richtext f v
  check_value relation f v = check_relation f v
  check_value multirelation f v = check_multirelation f v
  check_value image f v = check_image f v

  unfoldable pub check_present : ContentField N → Option (Json N) → Outcome (Json N)
  check_present f none = ok null
  check_present f (some v) = check_value f.type f v

  -- One turn of the loop over the fields, up to its write.
  unfoldable pub check_field : ContentField N → Option (Json N) → Outcome (Json N)
  check_field f value =
      refuse_if (f.required && is_unset value) (f.name <> " is required")
        (if is_unset value then ok null else check_present f value)

  unfoldable pub validate_fields : Fields N → List (ContentField N) → Fields N → Outcome (Fields N)
  validate_fields entry [] validated = ok validated
  validate_fields entry (f ∷ fs) validated = check_field f (get f.identifier entry) >>= λ v.
      validate_fields entry fs (put f.identifier v validated)

  unfoldable pub validate_entry_data : Fields N → List (ContentField N) → Outcome (Fields N)
  unfolding validate_fields
  validate_entry_data entry fields = validate_fields entry fields no_fields

-- `extractSlug` and `extractEntryTitle`.
abbrev pub first_of : {N : Type 0} → FieldTypeName → List (ContentField N) → Option (ContentField N)
first_of type [] = none
first_of type (f ∷ fs) =
    let later = first_of type fs in if same_type f.type type then some f else later

abbrev pub trimmed : {N : Type 0} → Option (Json N) → Option String
trimmed (some (str s)) = let t = trim s in if t == "" then none else some t
trimmed _ = none

abbrev pub trimmed_at : {N : Type 0} → Fields N → Option (ContentField N) → Option String
trimmed_at entry none = none
trimmed_at entry (some f) = trimmed (get f.identifier entry)

unfoldable pub extract_slug : {N : Type 0} → Fields N → List (ContentField N) → Option String
unfolding trim
extract_slug entry fields = trimmed_at entry (first_of slug fields)

abbrev or_untitled : Option String → String
or_untitled none = "Untitled"
or_untitled (some s) = s

unfoldable pub extract_entry_title : {N : Type 0} → Fields N → List (ContentField N) → String
unfolding trim
extract_entry_title entry fields = or_untitled (trimmed_at entry (first_of entry_title fields))
