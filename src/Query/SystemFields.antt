-- ===== src/Query/SystemFields.antt =====
-- apps/cms/utils/queryBuilder/systemFields.ts: filterable attributes that every entry has.
use Prim.Native.Char.{code}
use boject_cms.Common.{
  String, ◌==◌, eqb, Bool, true, false, List, [], ◌∷◌, Option, none, some, find?, ◌<|>◌,
}
use mathlib.Core.Option
use boject_cms.FieldType.{FieldTypeName, select, text, slug}
use boject_cms.Query.Types.{Choice, QueryField, QueryContentType}

pub record SystemField : Type 0 where
  pub identifier : String
  pub name : String
  pub engine_path : String
  pub type : FieldTypeName
  pub choices : Option (List Choice)
  pub unscoped : Bool

abbrev choice : String → String → Choice
choice l v = record { label = l; value = v }

abbrev pub system_fields : List SystemField
system_fields =
    record {
      identifier = "$status";
      name = "Status";
      engine_path = "status";
      type = select;
      choices = some (
          choice "Draft" "DRAFT"
          ∷ choice "Changed" "CHANGED"
          ∷ choice "Published" "PUBLISHED"
          ∷ []);
      unscoped = true;
    }
    ∷ record {
      identifier = "$id";
      name = "Entry ID";
      engine_path = "entryId";
      type = text;
      choices = none;
      unscoped = true;
    }
    ∷ record {
      identifier = "$entryKey";
      name = "Entry key";
      engine_path = "entryKey";
      type = slug;
      choices = none;
      unscoped = false;
    }
    ∷ []

-- `id.startsWith('$')`.
unfoldable pub is_system_field_id : String → Bool
is_system_field_id String.[] = false
is_system_field_id (String.◌∷◌ c _) = eqb (code c) b'$'

unfoldable pub get_system_field : String → Option SystemField
get_system_field i = find? (λ f. f.identifier == i) system_fields

unfoldable pub to_query_field : SystemField → QueryField
to_query_field sys = record {
  identifier = sys.identifier;
  name = sys.name;
  type = sys.type;
  choices = sys.choices;
  target_content_type_ids = none;
}

unfoldable pub own_field : Option QueryContentType → String → Option QueryField
own_field none identifier = none
own_field (some ct) identifier = find? (λ f. f.identifier == identifier) ct.fields

unfoldable pub resolve_query_field : Option QueryContentType → String → Option QueryField
unfolding own_field get_system_field to_query_field
resolve_query_field ct identifier =
    own_field ct identifier <|> Option.map to_query_field (get_system_field identifier)
