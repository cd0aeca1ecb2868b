-- ===== src/SbServer.antt =====
-- The Service Bus server: internal/servers/sbserver, over the codec of Amqp and the broker of Broker.
pub mod Helpers
pub mod Link
pub mod Conn
pub mod Attach
pub mod Transfers
pub mod Loop
pub mod Crash
pub mod Chunks
pub mod Delivery
mod Tests
