-- ===== src/SearchIndex/Document.antt =====
-- apps/cms/server/utils/searchDocument.ts and buildEntrySearchDocument.ts: the documents of an entry.
-- Dates as numbers and as texts, and the test for finite numbers, are parameters.
use Prim.Native.Char.{code}
use Prim.Native.String.{◌++◌ as ◌<>◌}
use boject_cms.Common.{
  ℕ, suc, String, ◌==◌, ltb, Bool, true, false, List, [], ◌∷◌, map, Option, none, some,
  if◌then◌else◌, find?, filter, ◌<|>◌,
}
use mathlib.Core.Option
use boject_cms.FieldType.{
  FieldTypeName, entry_title, slug, text, textarea, number, boolean, datetime, select, richtext,
  relation, multirelation, image,
}
use boject_cms.Content.Json.{
  Json, bool, num, str, arr, obj, Items, nil, cons, Fields, no_fields, field, get,
}
use boject_cms.Content.Text.{trim, is_space}
use boject_cms.Content.Options.{ContentField}
use boject_cms.Entry.Version.{
  ContentStatus, draft, published, changed, archived, ContentEntryVersion, has_status,
}

pub data SearchFieldValue (N : Type 0) : Type 0 where
  no_value : SearchFieldValue N
  text_value : String → SearchFieldValue N
  number_value : N → SearchFieldValue N
  bool_value : Bool → SearchFieldValue N
  texts_value : List String → SearchFieldValue N

pub record SearchDocument (N : Type 0) : Type 0 where
  pub id : String
  pub entry_id : String
  pub status : ContentStatus
  pub is_working_version : Bool
  pub entry_key : String
  pub content_type : String
  pub entry_title : String
  pub published_at : Option String
  pub fields : List (String × SearchFieldValue N)

pub record Formats (N : Type 0) : Type 0 where
  pub is_finite : N → Bool
  -- `new Date(text).getTime()`, where that is finite.
  pub epoch : String → Option N
  -- `date.toISOString()`.
  pub iso : ℕ → String

abbrev pub status_name : ContentStatus → String
status_name draft = "DRAFT"
status_name published = "PUBLISHED"
status_name changed = "CHANGED"
status_name archived = "ARCHIVED"

abbrev pub max_richtext_depth : ℕ
max_richtext_depth = 1000

-- `replace(/\s+/g, ' ')`; the flag says that the character before was a space.
unfoldable pub collapse_spaces : Bool → String → String
collapse_spaces _ String.[] = ""
collapse_spaces after (String.◌∷◌ c cs) =
    let inside = collapse_spaces true cs in
    let word = String.◌∷◌ c (collapse_spaces false cs) in
    if is_space (code c) then if after then inside else String.◌∷◌ " " inside else word

abbrev with_id : Option String → List String → List String
with_id none ids = ids
with_id (some i) ids = i ∷ ids

-- What a node adds: its own text, or its content and a space.
abbrev node_text : {N : Type 0} → Option (Json N) → String → String
node_text (some (str s)) content = s
node_text _ content = content <> " "

module _ {N : Type 0} where
  -- `walk(node, depth)`, with `parts` joined.
  unfoldable mutual
    pub plain_of : ℕ → Json N → String
    plain_of depth (obj n) =
        if ltb max_richtext_depth depth
        then ""
        else node_text (get "text" n) (plain_content depth n)
    plain_of depth (arr xs) = if ltb max_richtext_depth depth then "" else " "
    plain_of depth _ = ""

    pub plain_content : ℕ → Fields N → String
    plain_content depth no_fields = ""
    plain_content depth (field k v fs) =
        let here = plain_children depth v in
        let later = plain_content depth fs in if k == "content" then here else later

    pub plain_children : ℕ → Json N → String
    plain_children depth (arr xs) = plain_items (suc depth) xs
    plain_children depth _ = ""

    pub plain_items : ℕ → Items N → String
    plain_items depth nil = ""
    plain_items depth (cons x xs) = plain_of depth x <> plain_items depth xs

  unfoldable pub richtext_to_plain_text : Option (Json N) → String
  unfolding plain_of trim collapse_spaces
  richtext_to_plain_text none = ""
  richtext_to_plain_text (some doc) = trim (collapse_spaces false (plain_of 0 doc))

  abbrev pub as_object : Json N → Fields N
  as_object (obj fs) = fs
  as_object _ = no_fields

  abbrev filled_id : Option (Json N) → Option String
  filled_id (some (str s)) = if s == "" then none else some s
  filled_id _ = none

  abbrev pub relation_entry_id : Json N → Option String
  relation_entry_id v = filled_id (get "entryId" (as_object v))

  abbrev text_or_none : Option String → SearchFieldValue N
  text_or_none none = no_value
  text_or_none (some s) = text_value s

  abbrev pub relation_ids : Items N → List String
  relation_ids nil = []
  relation_ids (cons x xs) = with_id (relation_entry_id x) (relation_ids xs)

  abbrev string_field : Option (Json N) → SearchFieldValue N
  string_field (some (str s)) = text_value s
  string_field _ = no_value

  abbrev boolean_field : Option (Json N) → SearchFieldValue N
  boolean_field (some (bool b)) = bool_value b
  boolean_field _ = no_value

  abbrev relation_field : Option (Json N) → SearchFieldValue N
  relation_field none = no_value
  relation_field (some v) = text_or_none (relation_entry_id v)

  abbrev multirelation_field : Option (Json N) → SearchFieldValue N
  multirelation_field (some (arr xs)) = texts_value (relation_ids xs)
  multirelation_field _ = texts_value []

  -- `out[identifier] = value`.
  abbrev pub put_value :
      String
      → SearchFieldValue N
      → List (String × SearchFieldValue N)
      → List (String × SearchFieldValue N)
  put_value k v [] = (k, v) ∷ []
  put_value k v ((j, w) ∷ rest) =
      let later = put_value k v rest in if j == k then (j, v) ∷ rest else (j, w) ∷ later

  module _ (formats : Formats N) where
    abbrev number_or_none : Option N → SearchFieldValue N
    number_or_none none = no_value
    number_or_none (some x) = number_value x

    abbrev pub datetime_epoch : Option (Json N) → Option N
    datetime_epoch (some (str s)) = if s == "" then none else formats.epoch s
    datetime_epoch _ = none

    abbrev number_field : Option (Json N) → SearchFieldValue N
    number_field (some (num x)) = if formats.is_finite x then number_value x else no_value
    number_field _ = no_value

    -- The value of a field in the document; titles and images have none.
    unfoldable pub field_value : FieldTypeName → Option (Json N) → Option (SearchFieldValue N)
    unfolding richtext_to_plain_text
    field_value entry_title v = none
    field_value image v = none
    field_value text v = some (string_field v)
    field_value textarea v = some (string_field v)
    field_value slug v = some (string_field v)
    field_value select v = some (string_field v)
    field_value datetime v = some (number_or_none (datetime_epoch v))
    field_value number v = some (number_field v)
    field_value boolean v = some (boolean_field v)
    field_value richtext v = some (text_value (richtext_to_plain_text v))
    field_value relation v = some (relation_field v)
    field_value multirelation v = some (multirelation_field v)

    abbrev put_field :
        String
        → Option (SearchFieldValue N)
        → List (String × SearchFieldValue N)
        → List (String × SearchFieldValue N)
    put_field k none out = out
    put_field k (some v) out = put_value k v out

    unfoldable pub document_fields :
        Fields N
        → List (ContentField N)
        → List (String × SearchFieldValue N)
        → List (String × SearchFieldValue N)
    unfolding field_value
    document_fields entry [] out = out
    document_fields entry (f ∷ fs) out =
        document_fields entry fs
          (put_field f.identifier (field_value f.type (get f.identifier entry)) out)

unfoldable pub search_doc_id : String → ContentStatus → String
search_doc_id entry_id status = entry_id <> ("__" <> status_name status)

-- `EntryForSearch`, with the ids of its versions.
pub record EntryForSearch (N : Type 0) : Type 0 where
  pub id : String
  pub entry_key : String
  pub content_type : String
  pub fields : List (ContentField N)
  pub versions : List (ContentEntryVersion (Json N))

abbrev pub indexable_statuses : List ContentStatus
indexable_statuses = draft ∷ changed ∷ published ∷ []

abbrev pub is_indexable : ContentStatus → Bool
is_indexable draft = true
is_indexable changed = true
is_indexable published = true
is_indexable archived = false

abbrev pub same_version :
    {N : Type 0} → ContentEntryVersion (Json N) → Option (ContentEntryVersion (Json N)) → Bool
same_version v none = false
same_version v (some w) = v.id == w.id

module _ {N : Type 0} where
  abbrev pub indexable : List (ContentEntryVersion (Json N)) → List (ContentEntryVersion (Json N))
  indexable = filter (λ v. is_indexable v.status)

  unfoldable pub working_version :
      List (ContentEntryVersion (Json N)) → Option (ContentEntryVersion (Json N))
  working_version versions =
      find? (has_status changed) (indexable versions)
      <|> find? (has_status draft) (indexable versions)
      <|> find? (has_status published) (indexable versions)

  module _ (formats : Formats N) where
    unfoldable pub to_search_document :
        EntryForSearch N → ContentEntryVersion (Json N) → Bool → SearchDocument N
    unfolding search_doc_id document_fields
    to_search_document e v is_working = record {
      id = search_doc_id e.id v.status;
      entry_id = e.id;
      status = v.status;
      is_working_version = is_working;
      entry_key = e.entry_key;
      content_type = e.content_type;
      entry_title = v.entry_title;
      published_at = Option.map formats.iso v.published_at;
      fields = document_fields formats (as_object v.data_of) e.fields [];
    }

    unfoldable pub document_of : EntryForSearch N → ContentEntryVersion (Json N) → SearchDocument N
    unfolding to_search_document working_version
    document_of e v = to_search_document e v (same_version v (working_version e.versions))

    unfoldable pub build_entry_search_documents : EntryForSearch N → List (SearchDocument N)
    unfolding document_of
    build_entry_search_documents e = map (document_of e) (indexable e.versions)
