-- ===== src/Table.antt =====
-- The Table service's store: internal/stores/tablestore.
pub mod Types
pub mod Store
pub mod Entities
pub mod Concurrency
pub mod Merge
mod Tests
