-- ===== src/Protocol.antt =====
-- protocol.rs (crates/chorrent/src): bitfields and frames.
pub mod Bits
pub mod Bitfield
pub mod Frames
pub mod Messages
pub mod Exchange
pub mod Tests
