-- ===== src/Import.antt =====
-- apps/cms/scripts/content-bundle/planEntryImport.ts: what an import does with each entry of a bundle.
pub mod Plan
pub mod Outcome
mod Tests
