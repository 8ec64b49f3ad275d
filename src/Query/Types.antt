-- ===== src/Query/Types.antt =====
-- apps/cms/utils/queryBuilder/types.ts and query.ts: the query that the palette builds. An unknown
-- JavaScript value is read by what the builder does with it: `String(value ?? '')`, and whether it
-- is an array of strings.
use boject_cms.Common.{ℕ, String, List, [], ◌∷◌, ◌++◌, Option, erase_idx}
use Prim.Native.String
use boject_cms.FieldType.{FieldTypeName}

pub data Value : Type 0 where
  null undefined : Value
  str : String → Value
  strs : List String → Value
  -- Any other value, such as a number or a boolean, by its `String(…)`.
  other : String → Value

-- `Array.prototype.toString`.
abbrev pub join_comma : List String → String
join_comma [] = ""
join_comma (s ∷ []) = s
join_comma (s ∷ t ∷ ss) = String.◌++◌ s (String.◌++◌ "," (join_comma (t ∷ ss)))

-- `String(value ?? '')`.
abbrev pub text_of : Value → String
text_of null = ""
text_of undefined = ""
text_of (str s) = s
text_of (strs ss) = join_comma ss
text_of (other s) = s

pub record Choice : Type 0 where
  pub label : String
  pub value : String

pub record QueryField : Type 0 where
  pub identifier : String
  pub name : String
  pub type : FieldTypeName
  pub choices : Option (List Choice)
  pub target_content_type_ids : Option (List String)

pub record QueryContentType : Type 0 where
  pub id : String
  pub identifier : String
  pub name : String
  pub fields : List QueryField

pub record SearchFilter : Type 0 where
  pub field : String
  pub op : String
  pub value : Value

pub record SearchQuery : Type 0 where
  pub content_type : Option String
  pub q : Option String
  pub filters : List SearchFilter

unfoldable pub add_filter : SearchQuery → SearchFilter → SearchQuery
add_filter q f = record q { filters = q.filters ++ f ∷ [] }

-- `filters.filter((_, i) => i !== index)`.
unfoldable pub remove_filter : SearchQuery → ℕ → SearchQuery
remove_filter q index = record q { filters = erase_idx q.filters index }
