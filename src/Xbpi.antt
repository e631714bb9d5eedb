-- ===== src/Xbpi.antt =====
-- protocol/xbpi: the binary, length-prefixed, checksum-protected wire protocol.
pub mod Types
pub mod Framing
pub mod Tlv
pub mod Units
pub mod Tables
pub mod Parser
pub mod Client
