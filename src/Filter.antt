-- ===== src/Filter.antt =====
-- The Table server's filter expressions: internal/servers/tableserver.
pub mod Lexer
pub mod Tokens
pub mod Compare
pub mod Parser
pub mod Grammar
pub mod Chains
pub mod Accepts
mod Tests
