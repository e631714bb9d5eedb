-- ===== src/Sbi.antt =====
-- protocol/sbi: the line-oriented ASCII protocol.
pub mod Types
pub mod Lines
pub mod Client
