-- ===== src/Query/Tests.antt =====
-- The theorems on the query builder at one content type and its filters.
use mathlib.Core.Option
use boject_cms.Common.{
  has, string_eq, ℕ, suc, ◌+◌, ◌<◌, ◌≡◌, refl, true, false, [], ◌∷◌, none, some, arith, length,
  get_elem?,
}
use boject_cms.FieldType.{text, number}
use boject_cms.Query.Types.{str, strs, QueryField, QueryContentType, SearchFilter, SearchQuery}
use boject_cms.Query.Operators.{OperatorFlags, is_operator_id, operator_arity}
use boject_cms.Query.Machine.{
  BuilderState, InitOptions, DraftFilter, reduce, remove_filter_at, commit_value, value,
}
use boject_cms.Query.MachineLaws.{IsConsistent, reduce-IsConsistent}
use boject_cms.Query.Editing.{remove_filter-editing, remove_filter-commit_clobbers, filter_of}
use boject_cms.Query.Navigation.{plan_navigation, scoped_type}
use boject_cms.Query.Pages.{type_at}
use boject_cms.Query.NavigationLaws.{Follows, plan_navigation_lem}
use boject_cms.Query.Compile.{
  serialize_filter, parse_filter, compile_query, RouteQuery, array, route_to_search_query,
  is_search_mode,
}
use boject_cms.Query.CompileLaws.{
  IsPortable, parse_filter-serialize_filter, route_to_search_query-compile_query, Carries,
}

abbrev title_field : QueryField
title_field = record {
  identifier = "title";
  name = "Title";
  type = text;
  choices = none;
  target_content_type_ids = none;
}

abbrev size_field : QueryField
size_field = record title_field { identifier = "size"; name = "Size"; type = number }

abbrev article : QueryContentType
article = record {
  id = "t1";
  identifier = "article";
  name = "Article";
  fields = title_field ∷ size_field ∷ [];
}

abbrev by_title : SearchFilter
by_title = record { field = "title"; op = "contains"; value = str "tea: a, b" }

abbrev by_size : SearchFilter
by_size = record { field = "size"; op = "gt"; value = str "3" }

abbrev by_status : SearchFilter
by_status = record { field = "$status"; op = "in"; value = strs ("DRAFT" ∷ "CHANGED" ∷ []) }

abbrev scoped : SearchQuery
scoped = record {
  content_type = some "article";
  q = some "tea";
  filters = by_title ∷ by_size ∷ by_status ∷ [];
}

abbrev title_draft : DraftFilter
title_draft = record { field = title_field; op = "contains"; value = str "tea" }

-- A locked palette with three filters, the second of them being edited.
abbrev editing : BuilderState
editing = record {
  content_types = article ∷ [];
  locked = true;
  rich = true;
  multi_value = true;
  range = true;
  step = value;
  query = scoped;
  draft = some title_draft;
  editing_index = some 1;
  text = "3";
  intent = none;
}

abbrev options : InitOptions
options = record {
  content_types = article ∷ [];
  locked_content_type = some article;
  rich = true;
  multi_value = false;
  range = false;
  initial_query = none;
}

abbrev rich_flags : OperatorFlags
rich_flags = record { rich = true; multi_value = true; range = false; nullary = true }

editing-IsConsistent : IsConsistent editing
editing-IsConsistent = ground arith

reduce-IsConsistent_example : IsConsistent (reduce editing commit_value)
reduce-IsConsistent_example = reduce-IsConsistent editing commit_value tt editing-IsConsistent

remove_filter-editing_example :
    (e' : ℕ) × ((reduce editing (remove_filter_at 0)).editing_index ≡ some e')
    × (get_elem? (reduce editing (remove_filter_at 0)).query.filters e' ≡ some by_size)
remove_filter-editing_example = remove_filter-editing editing 0 1 by_size refl (omega arith) refl

remove_filter-commit_clobbers_example :
    (get_elem? (reduce (reduce editing (remove_filter_at 1)) commit_value).query.filters 1
      ≡ some (filter_of title_draft))
    × (length (reduce (reduce editing (remove_filter_at 1)) commit_value).query.filters + 1 ≡ 3)
    × ((j : ℕ)
        → 1 < j
        → get_elem? (reduce (reduce editing (remove_filter_at 1)) commit_value).query.filters j
          ≡ get_elem? scoped.filters (suc j))
remove_filter-commit_clobbers_example =
    remove_filter-commit_clobbers editing 1 title_draft refl refl (omega arith)

by_title-IsPortable : IsPortable by_title
unfolding is_operator_id operator_arity
by_title-IsPortable = record { no_colon = refl; known = refl; shaped = ("tea: a, b", refl) }

by_size-IsPortable : IsPortable by_size
unfolding is_operator_id operator_arity
by_size-IsPortable = record { no_colon = refl; known = refl; shaped = ("3", refl) }

by_status-IsPortable : IsPortable by_status
unfolding is_operator_id operator_arity
by_status-IsPortable = record {
  no_colon = refl;
  known = refl;
  shaped = ("DRAFT", "CHANGED" ∷ [], (refl, (refl, tt)), refl);
}

parse_filter-serialize_filter_example : parse_filter (serialize_filter by_status) ≡ by_status
parse_filter-serialize_filter_example = parse_filter-serialize_filter by_status by_status-IsPortable

abbrev carried : RouteQuery
carried = record {
  q = some "tea";
  filter = array ("title:contains:tea: a, b" ∷ "size:gt:3" ∷ "$status:in:DRAFT,CHANGED" ∷ []);
}

carried-Carries : Carries (compile_query scoped) carried
unfolding compile_query serialize_filter
carried-Carries = record { same_q = refl; same_filters = refl }

route_to_search_query-compile_query_example :
    (route_to_search_query carried (compile_query scoped).content_type ≡ scoped)
    × (is_search_mode carried ≡ true)
route_to_search_query-compile_query_example =
    route_to_search_query-compile_query scoped carried
      (by_title-IsPortable, (by_size-IsPortable, (by_status-IsPortable, tt))) carried-Carries

abbrev note : QueryContentType
note = record { id = "t2"; identifier = "note"; name = "Note"; fields = [] }

carried-Follows : Follows (plan_navigation scoped (note ∷ article ∷ [])) carried
unfolding plan_navigation compile_query serialize_filter scoped_type
carried-Follows = record { same_q = refl; same_filters = refl }

plan_navigation_lem_example :
    ((plan_navigation scoped (note ∷ article ∷ [])).path ≡ "/content-types/t1/entries")
    × (route_to_search_query carried (
          Option.map
            (λ c. c.identifier)
            (type_at (plan_navigation scoped (note ∷ article ∷ [])).path (note ∷ article ∷ [])))
        ≡ scoped)
unfolding has
plan_navigation_lem_example =
    plan_navigation_lem scoped (note ∷ article ∷ []) carried
      (by_title-IsPortable, (by_size-IsPortable, (by_status-IsPortable, tt))) (refl, (refl, tt))
      carried-Follows
