-- ===== src/Entry.antt =====
-- The life of a content entry: apps/cms/server/utils and apps/cms/server/api/entries.
pub mod Version
pub mod Transition
pub mod Rows
pub mod RowLaws
pub mod Database
pub mod Handlers
pub mod Writes
pub mod Effects
pub mod RowSearch
pub mod Settled
pub mod Preserve
pub mod WriteLaws
pub mod PublishLaws
pub mod Stored
pub mod Contents
pub mod ArchivedWrites
pub mod Refusals
pub mod ListDatabase
mod Tests
