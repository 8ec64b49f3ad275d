-- ===== src/Schema.antt =====
-- apps/cms/scripts/content-bundle/planSchema.ts: the plan that turns the content types of the
-- database into those of a bundle.
mod Types
mod Options
pub mod Fields
pub mod Plan
mod Frames
pub mod Removal
mod Kept
mod SameFields
pub mod Unchanged
mod Tests
