-- ===== src/SearchIndex.antt =====
-- The documents of the search engine: apps/cms/server/utils.
pub mod Document
pub mod Reconcile
pub mod DocIds
pub mod Converge
pub mod Working
pub mod Batches
mod Tests
