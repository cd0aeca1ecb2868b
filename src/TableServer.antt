-- ===== src/TableServer.antt =====
-- The Table server: internal/servers/tableserver, over the store of Table and the filters of Filter.
pub mod Keys
pub mod Located
pub mod Http
pub mod Handlers
pub mod Entities
pub mod Routes
pub mod Listed
pub mod Answers
pub mod Follow
pub mod Inserted
mod Tests
