-- ===== src/Monitor.antt =====
-- Azure Monitor Logs: internal/stores/monitorstore and internal/servers/monitorserver.
pub mod Values
pub mod Store
pub mod Predicate
pub mod Kql
pub mod Wire
pub mod Server
pub mod Ingested
pub mod Queries
pub mod Where
mod Tests
