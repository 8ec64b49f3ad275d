-- ===== src/TopoSort/Tests.antt =====
-- Instances at concrete types: an article needs its author, and the author may name a best article.
use boject_cms.Common.{
  ◌≡◌, ◌≢◌, refl, ◌⊎◌, String, true, false, List, [], ◌∷◌, string_eq, has, erase, distinct,
}
use boject_cms.TopoSort.Sort.{
  Edge, edge_eq, sorted, cycle_requires_null, out_of_fuel, run, in_cycle, topo_sort,
}
use boject_cms.TopoSort.Safety.{is_before, topo_sort_ends, topo_sort-is_before}
use boject_cms.TopoSort.Refusal.{topo_sort_refused}

abbrev types : List String
types = "Article" ∷ "Author" ∷ "Article" ∷ []

abbrev author : Edge
author = record { from = "Article"; to = "Author"; field = "author"; required = true }

abbrev best : Edge
best = record { from = "Author"; to = "Article"; field = "best"; required = false }

abbrev parent : Edge
parent = record { from = "Author"; to = "Article"; field = "parent"; required = true }

topo_sort_runs :
    topo_sort types (author ∷ best ∷ []) ≡ sorted ("Author" ∷ "Article" ∷ []) (best ∷ [])
unfolding run has erase distinct
topo_sort_runs = refl

topo_sort_gives_up :
    topo_sort types (author ∷ parent ∷ [])
    ≡ cycle_requires_null ("Article" ∷ "Author" ∷ []) (author ∷ parent ∷ [])
unfolding run has distinct
topo_sort_gives_up = refl

topo_sort_ends_example : topo_sort types (author ∷ best ∷ parent ∷ []) ≢ out_of_fuel
topo_sort_ends_example = topo_sort_ends types (author ∷ best ∷ parent ∷ [])

topo_sort-is_before_example :
    ((author.required ≡ false) × (has author (best ∷ []) ≡ true))
    ⊎ (is_before "Author" "Article" ("Author" ∷ "Article" ∷ []) ≡ true)
unfolding has
topo_sort-is_before_example =
    topo_sort-is_before types (author ∷ best ∷ []) (best ∷ []) ("Author" ∷ "Article" ∷ []) author
      topo_sort_runs refl refl

topo_sort_refused_example :
    (e : Edge) × (has e (author ∷ parent ∷ []) ≡ true)
    × (e.required ≡ true)
    × (has e (author ∷ parent ∷ []) ≡ true)
    × (in_cycle types e ≡ true)
    × (is_before e.to e.from ("Article" ∷ "Author" ∷ []) ≡ false)
unfolding has
topo_sort_refused_example =
    topo_sort_refused types (author ∷ parent ∷ []) (author ∷ parent ∷ [])
      ("Article" ∷ "Author" ∷ []) ("Article" ∷ "Author" ∷ []) topo_sort_gives_up refl refl

abbrev cover_page : Edge
cover_page = record { from = "Cover"; to = "Article"; field = "page"; required = false }

-- The first optional edge between remaining nodes is deferred, here one that no cycle goes through.
topo_sort_defers_beside_cycle :
    topo_sort ("Article" ∷ "Author" ∷ "Cover" ∷ []) (cover_page ∷ author ∷ best ∷ [])
    ≡ sorted ("Cover" ∷ "Author" ∷ "Article" ∷ []) (cover_page ∷ best ∷ [])
unfolding run has erase distinct
topo_sort_defers_beside_cycle = refl
