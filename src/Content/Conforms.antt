-- ===== src/Content/Conforms.antt =====
-- apps/cms/server/utils/validateEntryData.ts: the values that fields of each type hold after a
-- validation, told apart from the code that checks them, and the checks of one value.
use boject_cms.Common.{
  String, ◌==◌, Bool, true, false, ◌&&◌, not, ◌≡◌, List, [], ◌∷◌, string_eq, has,
}
use boject_cms.FieldType.{
  FieldTypeName, entry_title, slug, text, textarea, number, boolean, datetime, select, richtext,
  relation, multirelation, image,
}
use boject_cms.Content.Json.{
  Json, null, bool, num, str, arr, obj, Items, nil, cons, Fields, get, ok,
}
use boject_cms.Content.Text.{is_uuid_text}
use boject_cms.Content.Richtext.{no_text, is_list}
use boject_cms.Content.RichtextLaws.{IsAllowed, Within}
use boject_cms.Content.Options.{ContentField, FieldOptions, parse_field_options}
use boject_cms.Content.Validate.{
  Platform, Reference, choices_of, targets_of, allowed_of, reference_value, no_number, image_value,
}

abbrev pub is_textual : FieldTypeName → Bool
is_textual entry_title = true
is_textual slug = true
is_textual text = true
is_textual textarea = true
is_textual _ = false

module _ {N : Type 0} (p : Platform N) (f : ContentField N) where
  -- A reference to an entry that is there, of a type that the field allows.
  pub record IsTarget (opts : FieldOptions N) (r : Reference) : Type 0 where
    pub type_id : is_uuid_text r.content_type_id ≡ true
    pub own_id : is_uuid_text r.entry_id ≡ true
    pub allowed :
        (is_list (targets_of opts) && not (has r.content_type_id (targets_of opts))) ≡ false
    pub there : p.entry_exists r.content_type_id r.entry_id ≡ true

  -- Targets that differ from one another and from those seen before.
  pub data AreTargets (opts : FieldOptions N) : List String → Items N → Type 0 where
    no_target : (seen : List String) → AreTargets opts seen nil
    target :
        (seen : List String) (r : Reference) (x : Json N) (xs : Items N)
        → x ≡ reference_value r
        → IsTarget opts r
        → has r.entry_id seen ≡ false
        → AreTargets opts (r.entry_id ∷ seen) xs
        → AreTargets opts seen (cons x xs)

  pub record IsImage (img : Fields N) : Type 0 where
    pub storage_key : no_text (get "storageKey" img) ≡ false
    pub mime_type : no_text (get "mimeType" img) ≡ false
    pub width : no_number p (get "width" img) ≡ false
    pub height : no_number p (get "height" img) ≡ false
    pub file_size : no_number p (get "fileSize" img) ≡ false
    pub whole : img ≡ image_value p img

  -- The values of a field, by its type.
  pub data IsValue : FieldTypeName → Json N → Type 0 where
    is_text :
        (t : FieldTypeName) (s : String)
        → is_textual t ≡ true
        → (s == "") ≡ false
        → IsValue t (str s)
    is_number : (x : N) → p.is_finite x ≡ true → IsValue number (num x)
    is_bool : (b : Bool) → IsValue boolean (bool b)
    is_datetime : (s : String) → p.is_date s ≡ true → (s == "") ≡ false → IsValue datetime (str s)
    is_choice :
        (s : String) (opts : FieldOptions N)
        → parse_field_options p.schemas f.type f.options ≡ ok opts
        → (is_list (choices_of opts) && not (has s (choices_of opts))) ≡ false
        → (s == "") ≡ false
        → IsValue select (str s)
    is_document :
        (doc : Fields N) (opts : FieldOptions N)
        → parse_field_options p.schemas f.type f.options ≡ ok opts
        → ((n : Fields N) → Within n (obj doc) → IsAllowed p.new_url (allowed_of opts) n)
        → IsValue richtext (obj doc)
    is_relation :
        (v : Json N) (r : Reference) (opts : FieldOptions N)
        → v ≡ reference_value r
        → parse_field_options p.schemas f.type f.options ≡ ok opts
        → IsTarget opts r
        → IsValue relation v
    is_multirelation :
        (xs : Items N) (opts : FieldOptions N)
        → parse_field_options p.schemas f.type f.options ≡ ok opts
        → AreTargets opts [] xs
        → IsValue multirelation (arr xs)
    is_image : (img : Fields N) → IsImage img → IsValue image (obj img)

  -- What the entry holds for the field: null, unless the field is required, or a value of its type.
  pub data Conforms : Json N → Type 0 where
    blank : f.required ≡ false → Conforms null
    filled : (v : Json N) → IsValue f.type v → Conforms v
