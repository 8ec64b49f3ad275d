-- ===== src/FieldType.antt =====
-- apps/cms/utils/fieldTypes.ts: the types of the fields of a content type, by their wire names.
use boject_cms.Common.{String, ◌==◌, Bool, true, false, List, [], ◌∷◌, map, any, ◌≡◌, refl, arith}

pub data FieldTypeName : Type 0 where
  entry_title slug text textarea number boolean datetime select richtext relation : FieldTypeName
  multirelation image : FieldTypeName

abbrev pub same_type : FieldTypeName → FieldTypeName → Bool
same_type entry_title entry_title = true
same_type slug slug = true
same_type text text = true
same_type textarea textarea = true
same_type number number = true
same_type boolean boolean = true
same_type datetime datetime = true
same_type select select = true
same_type richtext richtext = true
same_type relation relation = true
same_type multirelation multirelation = true
same_type image image = true
same_type _ _ = false

abbrev pub wire_name : FieldTypeName → String
wire_name entry_title = "ENTRY_TITLE"
wire_name slug = "SLUG"
wire_name text = "TEXT"
wire_name textarea = "TEXTAREA"
wire_name number = "NUMBER"
wire_name boolean = "BOOLEAN"
wire_name datetime = "DATETIME"
wire_name select = "SELECT"
wire_name richtext = "RICHTEXT"
wire_name relation = "RELATION"
wire_name multirelation = "MULTIRELATION"
wire_name image = "IMAGE"

abbrev pub field_types : List FieldTypeName
field_types =
    entry_title ∷ slug ∷ text ∷ textarea ∷ number ∷ boolean ∷ datetime ∷ select ∷ richtext
    ∷ relation ∷ multirelation ∷ image ∷ []

-- `isFieldTypeName` on a string; any other value is no name.
abbrev pub is_field_type_name : String → Bool
is_field_type_name value = any (λ t. wire_name t == value) field_types

abbrev pub field_type_label : FieldTypeName → String
field_type_label entry_title = "Entry Title"
field_type_label slug = "Slug"
field_type_label text = "Text"
field_type_label textarea = "Textarea"
field_type_label number = "Number"
field_type_label boolean = "Boolean"
field_type_label datetime = "Date/Time"
field_type_label select = "Select"
field_type_label richtext = "Rich Text"
field_type_label relation = "Relation"
field_type_label multirelation = "Multi Relation"
field_type_label image = "Image"

pub record FieldTypeOption : Type 0 where
  pub label : String
  pub value : FieldTypeName

abbrev pub field_type_options : List FieldTypeOption
field_type_options = map (λ t. record { label = field_type_label t; value = t }) field_types

pub same_type-eq : (s t : FieldTypeName) → same_type s t ≡ true → s ≡ t
same_type-eq entry_title t h = ground arith
same_type-eq slug t h = ground arith
same_type-eq text t h = ground arith
same_type-eq textarea t h = ground arith
same_type-eq number t h = ground arith
same_type-eq boolean t h = ground arith
same_type-eq datetime t h = ground arith
same_type-eq select t h = ground arith
same_type-eq richtext t h = ground arith
same_type-eq relation t h = ground arith
same_type-eq multirelation t h = ground arith
same_type-eq image t h = ground arith

pub field_types_complete : (t : FieldTypeName) → any (λ s. same_type s t) field_types ≡ true
field_types_complete entry_title = refl
field_types_complete slug = refl
field_types_complete text = refl
field_types_complete textarea = refl
field_types_complete number = refl
field_types_complete boolean = refl
field_types_complete datetime = refl
field_types_complete select = refl
field_types_complete richtext = refl
field_types_complete relation = refl
field_types_complete multirelation = refl
field_types_complete image = refl
