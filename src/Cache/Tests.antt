-- ===== src/Cache/Tests.antt =====
-- Instances on stores that are functions.
use boject_cms.Common.{
  ℕ, ◌≡◌, refl, String, List, [], ◌∷◌, none, some, arith, string_eq, has, distinct,
}
use boject_cms.Cache.Tagged.{
  ttl_key, persistent_key, index_tag, index_tags, set, get, remove_items, invalidate_by_tag,
}
use boject_cms.Cache.Contract.{Operation, write, invalidate, value_in, run_spec, run_cache, IsEmpty}
use boject_cms.Cache.Refinement.{get-run_cache}
use boject_cms.Cache.MapStores.{map_stores, no_entries, map_stores-StoreLaws}

-- One article for a minute, one for good, and the tag of the first cleared.
abbrev history : List (ℕ × Operation String)
history =
    (1000, write "a" "first" ("x" ∷ "y" ∷ []) (some 60))
    ∷ (2000, write "b" "second" ("y" ∷ []) none)
    ∷ (3000, invalidate "x")
    ∷ []

no_entries-IsEmpty : IsEmpty (map_stores String) (no_entries String)
no_entries-IsEmpty = record { no_item = λ k. refl; no_index = λ tag. refl }

cleared_misses :
    get (map_stores String) 4000 "a" (run_cache (map_stores String) history (no_entries String))
    ≡ none
unfolding get set index_tags index_tag remove_items invalidate_by_tag ttl_key persistent_key has
    distinct
cleared_misses = refl

kept_hits :
    get (map_stores String) 4000 "b" (run_cache (map_stores String) history (no_entries String))
    ≡ some "second"
unfolding get set index_tags index_tag remove_items invalidate_by_tag ttl_key persistent_key has
    distinct
kept_hits = refl

get-run_cache_example : value_in 4000 (run_spec history (λ j. none) "b") ≡ some "second"
get-run_cache_example =
    get-run_cache (map_stores String) (map_stores-StoreLaws String) history 4000 (no_entries String)
      "b" "second" (omega arith, omega arith, (omega arith, tt, (omega arith, omega arith)))
      no_entries-IsEmpty kept_hits
