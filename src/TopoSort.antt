-- ===== src/TopoSort.antt =====
-- packages/boject-cli/src/perf/topoSort.ts: the order in which the performance tool creates the
-- entries of content types that refer to each other.
pub mod Sort
mod Loop
pub mod Safety
pub mod Refusal
mod Tests
