-- ===== src/Protocol.antt =====
-- crates/protocol/src: the types, messages and frames that client and server exchange.
pub mod Types
pub mod Messages
pub mod Codec
pub mod Version
pub mod Integrity
mod Tests
