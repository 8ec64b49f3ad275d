-- ===== src/Create.antt =====
-- The creation of entries: apps/cms/server/utils/createEntry.ts and what it calls.
pub mod Slug
pub mod SlugLaws
pub mod Entry
pub mod EntryLaws
pub mod Overlays
mod Tests
