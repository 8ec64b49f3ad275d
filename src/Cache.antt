-- ===== src/Cache.antt =====
-- apps/cms/server/utils/taggedCache.ts: cached values under tags, cleared by tag.
pub mod Stores
pub mod Tagged
mod Keys
mod Index
mod Contract
pub mod Writes
pub mod Refinement
mod MapStores
mod Tests
