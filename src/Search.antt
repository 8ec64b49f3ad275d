-- ===== src/Search.antt =====
-- apps/cms/server/utils/compileSearchFilter.ts: search filters, compiled to the clauses of the engine.
pub mod Literal
pub mod LiteralLaws
pub mod Compile
mod Switch
pub mod Acceptance
pub mod Grammar
pub mod Offered
mod Tests
