-- ===== src/Query.antt =====
-- The query builder of the search palette: apps/cms/utils/queryBuilder.
pub mod Operators
pub mod OperatorLaws
pub mod Types
pub mod SystemFields
pub mod Machine
pub mod MachineLaws
pub mod Editing
pub mod Scope
pub mod Compile
pub mod CompileLaws
pub mod Navigation
pub mod Pages
pub mod NavigationLaws
mod Tests
