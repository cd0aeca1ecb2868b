-- ===== src/Queue.antt =====
-- The Queue store: internal/stores/queuestore.
pub mod Types
pub mod Messages
pub mod Store
pub mod Delivery
pub mod Receipts
pub mod Metadata
pub mod Durability
pub mod Restart
pub mod Listing
mod Tests
