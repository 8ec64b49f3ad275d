-- ===== src/Query/Navigation.antt =====
-- apps/cms/utils/queryBuilder/navigation.ts: where a run of the query navigates. The keys of the
-- route's query are fields that may be absent.
use Prim.Native.String
use boject_cms.Common.{
  String, ◌==◌, Bool, true, false, ◌||◌, not, List, map, Option, none, some, find?, filter, length,
  ltb, if◌then◌else◌, truthy,
}
use boject_cms.Query.Types.{QueryContentType, SearchFilter, SearchQuery}
use boject_cms.Query.SystemFields.{get_system_field}
use boject_cms.Query.Machine.{is_empty_text}
use boject_cms.Query.Compile.{
  compile_query, serialize_filter, FilterParam, absent, single, array, if_truthy,
}

pub record NavigationPlan : Type 0 where
  pub path : String
  pub q : Option String
  pub filter : Option (List String)
  pub columns : FilterParam

-- The content type of the query, where it is a known one.
unfoldable pub scoped_type : Option String → List QueryContentType → Option QueryContentType
scoped_type none content_types = none
scoped_type (some i) content_types =
    if truthy (some i) then find? (λ c. c.identifier == i) content_types else none

unfoldable pub is_system_filter : SearchFilter → Bool
is_system_filter f = elim (get_system_field f.field) [ none ↦ false | some _ ↦ true ]

abbrev pub serialized : List SearchFilter → Option (List String)
serialized fs = if ltb 0 (length fs) then some (map serialize_filter fs) else none

abbrev pub plan_for : SearchQuery → Option QueryContentType → NavigationPlan
plan_for query (some c) = record {
  path = String.◌++◌ "/content-types/" (String.◌++◌ c.id "/entries");
  q = if_truthy (compile_query query).q;
  filter = (compile_query query).filter;
  columns = absent;
}
plan_for query none = record {
  path = "/";
  q = if_truthy (compile_query query).q;
  filter = serialized (filter is_system_filter query.filters);
  columns = absent;
}

unfoldable pub plan_navigation : SearchQuery → List QueryContentType → NavigationPlan
plan_navigation query content_types =
    plan_for query (scoped_type (compile_query query).content_type content_types)

-- Whether the `columns` of a route are truthy: an array is, even an empty one.
abbrev pub has_columns : FilterParam → Bool
has_columns absent = false
has_columns (single s) = not (is_empty_text s)
has_columns (array _) = true

unfoldable pub with_preserved_columns : NavigationPlan → String → FilterParam → NavigationPlan
with_preserved_columns plan current_path current_columns =
    if not (plan.path == current_path) || not (has_columns current_columns)
    then plan
    else record plan { columns = current_columns }
