-- ===== src/Amqp.antt =====
-- The Service Bus server's AMQP 1.0 codec: internal/servers/sbserver.
pub mod Types
pub mod Encode
pub mod Decode
pub mod Wire
pub mod Fits
pub mod Scalars
pub mod RoundTrip
pub mod Frame
pub mod Framing
pub mod Bounds
pub mod Crash
pub mod Limits
mod Tests
