-- ===== src/QueueServer.antt =====
-- The Queue server: internal/servers/queueserver, over the store of Queue.
pub mod Names
pub mod Http
pub mod Handlers
pub mod Routes
pub mod Unseen
pub mod Answers
pub mod Paths
pub mod Receipts
mod Tests
