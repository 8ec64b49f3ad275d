-- ===== src/Content.antt =====
-- The contents of entries: apps/cms/server/utils and apps/cms/utils.
pub mod Json
pub mod Text
pub mod Richtext
pub mod Outcomes
pub mod Nodes
pub mod RichtextLaws
pub mod Options
pub mod Validate
pub mod Conforms
pub mod Images
pub mod Checked
pub mod Accepted
pub mod Maps
pub mod Validated
pub mod Spread
pub mod EnrichLaws
pub mod Links
pub mod Unlinked
mod Tests
pub mod Enrich
