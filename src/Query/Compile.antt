-- ===== src/Query/Compile.antt =====
-- apps/cms/utils/queryBuilder/compile.ts: filters as `field:op:value` tokens of a URL.
use Prim.Native.Char.{Char, code}
use Prim.Native.String
use mathlib.Core.Option
use boject_cms.Common.{
  String, eqb, Bool, true, false, ◌&&◌, not, List, [], ◌∷◌, map, Option, none, some, ltb, length,
  if◌then◌else◌, truthy,
}
use boject_cms.Query.Types.{Value, undefined, str, strs, text_of, SearchFilter, SearchQuery}
use boject_cms.Query.Operators.{Arity, zero, one, two, many, operator_arity, is_operator_id}
use boject_cms.Query.Machine.{is_empty_text}

abbrev cons_left : Char → String × String → String × String
cons_left c (a, b) = (String.◌∷◌ c a, b)

-- `indexOf(':')` with the two slices around it.
unfoldable pub split_colon : String → Option (String × String)
split_colon String.[] = none
split_colon (String.◌∷◌ c s) =
    let rest = split_colon s in
    if eqb (code c) b':' then some ("", s) else Option.map (cons_left c) rest

abbrev push_first : Char → List String → List String
push_first c [] = String.◌∷◌ c "" ∷ []
push_first c (s ∷ ss) = String.◌∷◌ c s ∷ ss

-- `split(',')`.
unfoldable pub split_comma : String → List String
split_comma String.[] = "" ∷ []
split_comma (String.◌∷◌ c s) =
    let rest = split_comma s in if eqb (code c) b',' then "" ∷ rest else push_first c rest

unfoldable pub serialize_filter : SearchFilter → String
serialize_filter f =
    String.◌++◌ f.field (String.◌++◌ ":" (String.◌++◌ f.op (String.◌++◌ ":" (text_of f.value))))

abbrev pub value_for : Arity → String → Value
value_for zero raw = undefined
value_for one raw = str raw
value_for two raw = strs (split_comma raw)
value_for many raw = strs (split_comma raw)

-- The rest of a token behind its field.
unfoldable pub parse_rest : String → String → Option (String × String) → SearchFilter
parse_rest field rest none = record { field = field; op = "eq"; value = str rest }
parse_rest field rest (some (op, raw)) =
    if not (is_empty_text op) && is_operator_id op
    then record { field = field; op = op; value = value_for (operator_arity op) raw }
    else record { field = field; op = "eq"; value = str rest }

unfoldable pub parse_token : String → Option (String × String) → SearchFilter
parse_token s none = record { field = s; op = "eq"; value = str "" }
parse_token s (some (field, rest)) = parse_rest field rest (split_colon rest)

unfoldable pub parse_filter : String → SearchFilter
unfolding parse_token parse_rest
parse_filter s = parse_token s (split_colon s)

pub record SearchParams : Type 0 where
  pub q : Option String
  pub content_type : Option String
  pub filter : Option (List String)

abbrev pub if_truthy : Option String → Option String
if_truthy o = if truthy o then o else none

unfoldable pub compile_query : SearchQuery → SearchParams
compile_query query = record {
  q = if_truthy query.q;
  content_type = if_truthy query.content_type;
  filter = if ltb 0 (length query.filters) then some (map serialize_filter query.filters) else none;
}

-- The values of `?filter=`: none, one, or an array.
pub data FilterParam : Type 0 where
  absent : FilterParam
  single : String → FilterParam
  array : List String → FilterParam

pub record RouteQuery : Type 0 where
  pub q : Option String
  pub filter : FilterParam

abbrev pub raw_filters : FilterParam → List String
raw_filters absent = []
raw_filters (single s) = if is_empty_text s then [] else s ∷ []
raw_filters (array ss) = ss

unfoldable pub route_to_search_query : RouteQuery → Option String → SearchQuery
route_to_search_query route content_type_identifier = record {
  content_type = if_truthy content_type_identifier;
  q = if_truthy route.q;
  filters = map parse_filter (raw_filters route.filter);
}

abbrev has_filter : FilterParam → Bool
has_filter absent = false
has_filter (single s) = not (is_empty_text s)
has_filter (array ss) = ltb 0 (length ss)

unfoldable pub is_search_mode : RouteQuery → Bool
is_search_mode route = if truthy route.q then true else has_filter route.filter
