-- ===== src/Query/Pages.antt =====
-- apps/cms/utils/queryBuilder/navigation.ts: the pages of the content types, stated apart from the code's
-- clauses, and which content type a page shows.
use Prim.Native.String.{◌++◌ as ◌<>◌}
use text.Mathlib.TextLemmas.{cons-append}
use boject_cms.Common.{
  String, ◌==◌, eq_iff, eq_refl, Bool, ◌||◌, false, has, map, string_eq, ◌≡◌, refl, ap, ◌∙◌, true,
  List, [], ◌∷◌, Option, none, some, find?, filter, arith, Bool-cases, inl, inr,
}
use boject_cms.Query.Types.{QueryContentType, SearchFilter, SearchQuery}
use boject_cms.Query.SystemFields.{get_system_field}
use boject_cms.Query.Compile.{if_truthy}
use boject_cms.Query.Navigation.{scoped_type, is_system_filter}

-- The page of the entries of a content type.
abbrev pub page_of : QueryContentType → String
page_of c = "/content-types/" <> (c.id <> "/entries")

-- The content type that a page shows.
abbrev pub type_at : String → List QueryContentType → Option QueryContentType
type_at path = find? (λ c. page_of c == path)

abbrev pub HaveOwnPages : List QueryContentType → Type 0
HaveOwnPages [] = Unit
HaveOwnPages (c ∷ cs) = (has (page_of c) (map page_of cs) ≡ false) × HaveOwnPages cs

-- The content type that a query names.
abbrev pub named_type : Option String → List QueryContentType → Option QueryContentType
named_type none cts = none
named_type (some String.[]) cts = none
named_type (some (String.◌∷◌ a rest)) cts = find? (λ c. c.identifier == String.◌∷◌ a rest) cts

abbrev pub destination : Option QueryContentType → String
destination none = "/"
destination (some c) = page_of c

abbrev pub on_system_field : SearchFilter → Bool
on_system_field f = "$status" == f.field || "$id" == f.field || "$entryKey" == f.field

-- What is left of a query for the content type that it names.
abbrev pub kept_for : SearchQuery → Option QueryContentType → SearchQuery
kept_for query (some c) = record {
  content_type = some (c.identifier);
  q = if_truthy query.q;
  filters = query.filters;
}
kept_for query none = record {
  content_type = none;
  q = if_truthy query.q;
  filters = filter on_system_field query.filters;
}

on_system_field_lem : (f : SearchFilter) → is_system_filter f ≡ on_system_field f
unfolding is_system_filter get_system_field
on_system_field_lem f = ground arith

pub filter-on_system_field :
    (fs : List SearchFilter) → filter is_system_filter fs ≡ filter on_system_field fs
filter-on_system_field [] = refl
filter-on_system_field (f ∷ fs) = ground (arith, on_system_field_lem f, filter-on_system_field fs)

abbrev is_short : String → Bool
is_short (String.◌∷◌ _ (String.◌∷◌ _ _)) = false
is_short _ = true

root_page : (c : QueryContentType) → (page_of c == "/") ≡ false
root_page c =
    let rest = c.id <> "/entries" in
    let long = ap is_short (
      cons-append "/" "content-types/" rest
      ∙ ap (λ s. String.◌∷◌ "/" s) (cons-append "c" "ontent-types/" rest)) in
    elim (Bool-cases (page_of c == "/")) [
      | inl e ↦ absurd (ground (arith, long, ap is_short ((eq_iff (page_of c) "/").0 e)))
      | inr e ↦ e
    ]

pub type_at_root : (cts : List QueryContentType) → type_at "/" cts ≡ none
type_at_root [] = refl
type_at_root (c ∷ cts) = rw (root_page c) (type_at_root cts)

other_page :
    (x i : String) (cts : List QueryContentType) (c : QueryContentType)
    → has x (map page_of cts) ≡ false
    → find? (λ t. t.identifier == i) cts ≡ some c
    → (x == page_of c) ≡ false
unfolding has
other_page x i [] c f h = cc
other_page x i (t ∷ cts) c f h =
    ground (arith, other_page x i cts c, eq_iff x (page_of c), eq_iff (page_of t) x)

pub type_at-page_of :
    (i : String) (cts : List QueryContentType) (c : QueryContentType)
    → HaveOwnPages cts
    → find? (λ t. t.identifier == i) cts ≡ some c
    → type_at (page_of c) cts ≡ some c
type_at-page_of i [] c d h = cc
type_at-page_of i (t ∷ cts) c (own, d) h =
    ground
      (arith, eq_refl (page_of c), type_at-page_of i cts c d, other_page (page_of t) i cts c own)

pub named_lem :
    (o : Option String) (cts : List QueryContentType)
    → scoped_type (if_truthy o) cts ≡ named_type o cts
unfolding scoped_type
named_lem none cts = refl
named_lem (some String.[]) cts = refl
named_lem (some (String.◌∷◌ a rest)) cts = refl
