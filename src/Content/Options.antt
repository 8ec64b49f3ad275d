-- ===== src/Content/Options.antt =====
-- The fields of a content type as the write path reads them, with apps/cms/utils/fieldOptions.ts and
-- apps/cms/utils/fieldDefaults.ts. The object schemas of the parser library are parameters; the
-- refinement of the schema of SELECT is the code's own.
use Prim.Native.String.{◌++◌ as ◌<>◌}
use mathlib.Core.Option
use boject_cms.Common.{
  String, Bool, true, false, ◌&&◌, not, List, [], ◌∷◌, Option, none, some, if◌then◌else◌, string_eq,
  has,
}
use boject_cms.FieldType.{
  FieldTypeName, number, boolean, select, richtext, relation, multirelation, wire_name,
}
use boject_cms.Content.Json.{
  Json, null, bool, num, str, obj, Fields, no_fields, field, get, put, Outcome, ok, or_throw, ◌>>=◌,
}

pub record ContentField (N : Type 0) : Type 0 where
  pub identifier : String
  pub name : String
  pub type : FieldTypeName
  pub required : Bool
  pub unique : Bool
  pub options : Option (Json N)

-- `FieldOptions`; the type of the field is beside it.
pub data FieldOptions (N : Type 0) : Type 0 where
  select_options : List String → Option String → FieldOptions N
  boolean_options : Option Bool → FieldOptions N
  number_options : Option N → FieldOptions N
  relation_options : List String → FieldOptions N
  richtext_options : List String → List String → FieldOptions N
  no_options : FieldOptions N

-- `schema.parse(raw)` of the objects that the file declares, without the refinement; `none` throws.
pub record Schemas (N : Type 0) : Type 0 where
  pub select_object : Json N → Option (List String × Option String)
  pub boolean_object : Json N → Option (Option Bool)
  pub number_object : Json N → Option (Option N)
  pub relation_object : Json N → Option (List String)
  pub richtext_object : Json N → Option (List String × List String)

-- `SelectOptionsSchema.refine`.
abbrev pub refined : List String × Option String → Option (List String × Option String)
refined (choices, none) = some (choices, none)
refined (choices, some d) = if has d choices then some (choices, some d) else none

-- `field.options ?? {}`.
abbrev pub raw_options : {N : Type 0} → Option (Json N) → Json N
raw_options none = obj no_fields
raw_options (some null) = obj no_fields
raw_options (some v) = v

abbrev pub is_there : {A : Type 0} → Option A → Bool
is_there none = false
is_there (some a) = true

-- `hasDefault` of `checkFieldDefault`: a list or another value has no `default`.
abbrev pub has_default : {N : Type 0} → Option (Json N) → Bool
has_default (some (obj o)) = is_there (get "default" o)
has_default _ = false

-- `DEFAULT_SUPPORTED_TYPES.has(type)`.
abbrev pub supports_default : FieldTypeName → Bool
supports_default boolean = true
supports_default number = true
supports_default select = true
supports_default _ = false

abbrev pub is_boolean : FieldTypeName → Bool
is_boolean boolean = true
is_boolean _ = false

abbrev pub succeeds : {A : Type 0} → Outcome A → Bool
succeeds (ok a) = true
succeeds _ = false

module _ {N : Type 0} (schemas : Schemas N) where
  unfoldable pub parse_field_options : FieldTypeName → Option (Json N) → Outcome (FieldOptions N)
  parse_field_options select options = do
    parsed ← or_throw (schemas.select_object (raw_options options))
    o ← or_throw (refined parsed)
    ok (select_options o.0 o.1)
  parse_field_options relation options = do
    ids ← or_throw (schemas.relation_object (raw_options options))
    ok (relation_options ids)
  parse_field_options multirelation options = do
    ids ← or_throw (schemas.relation_object (raw_options options))
    ok (relation_options ids)
  parse_field_options richtext options = do
    ids ← or_throw (schemas.richtext_object (raw_options options))
    ok (richtext_options ids.0 ids.1)
  parse_field_options boolean options = do
    d ← or_throw (schemas.boolean_object (raw_options options))
    ok (boolean_options d)
  parse_field_options number options = do
    d ← or_throw (schemas.number_object (raw_options options))
    ok (number_options d)
  parse_field_options _ options = ok no_options

  unfoldable pub check_field_default : FieldTypeName → Option (Json N) → Bool → Option String
  unfolding parse_field_options
  check_field_default type options required =
      if is_boolean type && (required && not (has_default options))
      then some "A required BOOLEAN field must define a default value of true or false"
      else if not (has_default options)
      then none
      else if not (supports_default type)
      then some ("Default values are not supported on " <> (wire_name type <> " fields"))
      else if succeeds (parse_field_options type options)
      then none
      else some ("Invalid default value for " <> (wire_name type <> " field"))

  -- `opts.default`, where the type supports one.
  abbrev pub default_value : FieldOptions N → Option (Json N)
  default_value (select_options choices d) = Option.map str d
  default_value (boolean_options d) = Option.map bool d
  default_value (number_options d) = Option.map num d
  default_value _ = none

  abbrev put_default : String → Option (Json N) → Fields N → Fields N
  put_default k none out = out
  put_default k (some v) out = put k v out

  -- The loop of `defaultsForFields`.
  unfoldable pub defaults_from : List (ContentField N) → Fields N → Outcome (Fields N)
  unfolding parse_field_options
  defaults_from [] out = ok out
  defaults_from (f ∷ fs) out = do
    opts ← parse_field_options f.type f.options
    defaults_from fs (put_default f.identifier (default_value opts) out)

  unfoldable pub defaults_for_fields : List (ContentField N) → Outcome (Fields N)
  unfolding defaults_from
  defaults_for_fields fields = defaults_from fields no_fields

  -- `apps/cms/server/utils/applyFieldDefaults.ts`: the keys that the payload lacks.
  unfoldable pub seed : Fields N → Fields N → Fields N
  seed no_fields out = out
  seed (field k v defaults) out = seed defaults (if is_there (get k out) then out else put k v out)

  unfoldable pub apply_field_defaults : Fields N → List (ContentField N) → Outcome (Fields N)
  unfolding defaults_for_fields seed
  apply_field_defaults payload fields = do
    defaults ← defaults_for_fields fields
    ok (seed defaults payload)
