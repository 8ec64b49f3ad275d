-- ===== src/Cache/Tagged.antt =====
-- apps/cms/server/utils/taggedCache.ts: the cache of `createTaggedCache` on the interface of its
-- stores. The calls that run at once are made one after the other.
use Prim.Native.String.{◌++◌ as ◌<>◌}
use boject_cms.Common.{
  ℕ, String, List, [], ◌∷◌, ◌++◌, Option, none, some, if◌then◌else◌, string_eq, distinct,
}
use boject_cms.Cache.Stores.{Stores, alive}

abbrev pub tag_index_prefix : String
tag_index_prefix = "__tagindex:"

abbrev pub tag_index_persistent_prefix : String
tag_index_persistent_prefix = "__tagindex_p:"

unfoldable pub ttl_key : String → String
ttl_key tag = tag_index_prefix <> tag

unfoldable pub persistent_key : String → String
persistent_key tag = tag_index_persistent_prefix <> tag

abbrev pub live {ℓ} : {V : Type ℓ} → ℕ → Option (V × Option ℕ) → Option V
live now none = none
live now (some (v, d)) = if alive now d then some v else none

module _ {V : Type 0} (db : Stores V) where
  -- The commands of the pipeline for one tag.
  unfoldable pub index_tag : ℕ → String → Option ℕ → String → db.State → db.State
  index_tag now key (some ttl) tag s =
      db.expire_gt now (ttl_key tag) ttl
        (db.expire_nx now (ttl_key tag) ttl (db.sadd now (ttl_key tag) key s))
  index_tag now key none tag s = db.sadd now (persistent_key tag) key s

  unfoldable pub index_tags : ℕ → String → Option ℕ → List String → db.State → db.State
  index_tags now key ttl [] s = s
  index_tags now key ttl (tag ∷ tags) s = index_tags now key ttl tags (index_tag now key ttl tag s)

  unfoldable pub set : ℕ → String → V → List String → Option ℕ → db.State → db.State
  set now key value tags ttl s = index_tags now key ttl tags (db.set_item now key value ttl s)

  unfoldable pub get : ℕ → String → db.State → Option V
  get now key s = live now (db.item key s)

  unfoldable pub remove_items : List String → db.State → db.State
  remove_items [] s = s
  remove_items (key ∷ keys) s = remove_items keys (db.remove_item key s)

  unfoldable pub invalidate_by_tag : ℕ → String → db.State → db.State
  invalidate_by_tag now tag s =
      let members =
        distinct (db.smembers now (ttl_key tag) s ++ db.smembers now (persistent_key tag) s) in
      db.del (persistent_key tag) (db.del (ttl_key tag) (remove_items members s))
