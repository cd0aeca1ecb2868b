-- ===== src/Broker.antt =====
-- The in-memory Service Bus broker: internal/stores/sbstore.
pub mod Store
pub mod Channels
pub mod Sound
pub mod Steps
pub mod Run
mod Tests
