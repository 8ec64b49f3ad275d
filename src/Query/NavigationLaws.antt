-- ===== src/Query/NavigationLaws.antt =====
-- The query comes back from the route that its plan navigates to.
use mathlib.Core.Option
use mathlib.Core.Path.{subst}
use boject_cms.Common.{
  String, ◌==◌, eq_iff, string_eq, ◌≡◌, refl, sym, ap, ◌∙◌, true, List, [], ◌∷◌, Option, none, some,
  find?, filter, truthy, arith, Bool-cases, Option-cases, inl, inr,
}
use boject_cms.Query.Types.{QueryContentType, SearchFilter, SearchQuery}
use boject_cms.Query.Compile.{
  compile_query, RouteQuery, raw_filters, route_to_search_query, if_truthy,
}
use boject_cms.Query.CompileLaws.{
  AllPortable, listed, listed-some, map-parse_filter, if_truthy_idem,
}
use boject_cms.Query.Navigation.{
  NavigationPlan, scoped_type, is_system_filter, plan_for, plan_navigation,
}
use boject_cms.Query.Pages.{
  type_at, HaveOwnPages, named_type, destination, kept_for, filter-on_system_field, type_at_root,
  type_at-page_of, named_lem,
}

-- A route that carries the plan's query.
pub record Follows (plan : NavigationPlan) (route : RouteQuery) : Type 0 where
  pub same_q : route.q ≡ plan.q
  pub same_filters : raw_filters route.filter ≡ listed plan.filter

filter-AllPortable :
    (fs : List SearchFilter) → AllPortable fs → AllPortable (filter is_system_filter fs)
filter-AllPortable [] _ = tt
filter-AllPortable (f ∷ fs) (p, ps) = elim (Bool-cases (is_system_filter f)) [
  | inl system ↦ rw system (p, filter-AllPortable fs ps)
  | inr own ↦ rw own (filter-AllPortable fs ps)
]

find_type-identifier :
    (cts : List QueryContentType) (i : String) (c : QueryContentType)
    → find? (λ t. t.identifier == i) cts ≡ some c
    → c.identifier ≡ i
find_type-identifier [] i c h = cc
find_type-identifier (t ∷ cts) i c h =
    ground (arith, eq_iff t.identifier i, find_type-identifier cts i c)

scoped_type-identifier :
    (o : Option String) (cts : List QueryContentType) (c : QueryContentType)
    → scoped_type (if_truthy o) cts ≡ some c
    → (o ≡ some (c.identifier)) × (truthy o ≡ true)
unfolding scoped_type
scoped_type-identifier none cts c h = cc
scoped_type-identifier (some i) cts c h = elim (Bool-cases (truthy (some i))) [
  | inl given ↦
      let found : find? (λ (t : QueryContentType). t.identifier == i) cts ≡ some c =
        ground (arith, given) in
      (ap some (sym (find_type-identifier cts i c found)), given)
  | inr blank ↦ ground (arith, blank)
]

-- The query for the content type that its plan was made for, read from a route that carries the plan.
read_back :
    (query : SearchQuery) (cts : List QueryContentType) (route : RouteQuery)
    (known : Option QueryContentType)
    → AllPortable query.filters
    → scoped_type (if_truthy query.content_type) cts ≡ known
    → Follows (plan_for query known) route
    → route_to_search_query route (Option.map (λ c. c.identifier) known) ≡ kept_for query known
unfolding compile_query route_to_search_query
read_back query cts route (some c) portable k f =
    let (named, given) = scoped_type-identifier query.content_type cts c k in
    rw
      (
        f.same_q,
        if_truthy_idem query.q,
        if_truthy_idem query.q,
        f.same_filters ∙ listed-some query.filters,
        map-parse_filter query.filters portable,
        subst (λ o. truthy o ≡ true) named given,
      )
      refl
read_back query cts route none portable k f =
    rw
      (
        f.same_q,
        if_truthy_idem query.q,
        if_truthy_idem query.q,
        f.same_filters ∙ listed-some (filter is_system_filter query.filters),
        map-parse_filter (filter is_system_filter query.filters)
            (filter-AllPortable query.filters portable),
        filter-on_system_field query.filters,
      )
      refl

type_at-destination :
    (o : Option String) (cts : List QueryContentType)
    → HaveOwnPages cts
    → type_at (destination (named_type o cts)) cts ≡ named_type o cts
type_at-destination none cts d = type_at_root cts
type_at-destination (some String.[]) cts d = type_at_root cts
type_at-destination (some (String.◌∷◌ a rest)) cts d =
    elim (Option-cases (find? (λ c. c.identifier == String.◌∷◌ a rest) cts)) [
      | inl e ↦ rw e (type_at_root cts)
      | inr (c, e) ↦ rw e (type_at-page_of (String.◌∷◌ a rest) cts c d e)
    ]

path_lem :
    (query : SearchQuery) (known : Option QueryContentType)
    → (plan_for query known).path ≡ destination known
path_lem query none = refl
path_lem query (some c) = refl

-- The plan's path is the page of the content type that the query names, `/` where it names none that
-- is known. A route at that path that carries the plan reads, with the content type whose page it is,
-- as the query, or as the query without a content type and with its filters on `$status`, `$id` and
-- `$entryKey` alone. The filters are portable, no two content types have one page, and an empty text
-- or content type counts as none.
pub plan_navigation_lem :
    (query : SearchQuery) (cts : List QueryContentType) (route : RouteQuery)
    → AllPortable query.filters
    → HaveOwnPages cts
    → Follows (plan_navigation query cts) route
    → ((plan_navigation query cts).path ≡ destination (named_type query.content_type cts))
      × (route_to_search_query route
            (Option.map (λ c. c.identifier) (type_at (plan_navigation query cts).path cts))
          ≡ kept_for query (named_type query.content_type cts))
unfolding plan_navigation compile_query
plan_navigation_lem query cts route portable d f =
    let known = scoped_type (if_truthy query.content_type) cts in
    let named = named_lem query.content_type cts in
    let path = path_lem query known ∙ ap destination named in
    (
      path,
      rw path (
          rw (type_at-destination query.content_type cts d) (
            subst
              (λ o.
                route_to_search_query route (Option.map (λ c. c.identifier) o) ≡ kept_for query o)
              named (read_back query cts route known portable refl f))),
    )
