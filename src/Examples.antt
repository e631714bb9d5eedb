-- ===== src/Examples.antt =====
-- Concrete runs: the theorems applied to inputs on which their hypotheses hold.
pub mod Frames
pub mod Bodies
pub mod Wire
pub mod Lines
pub mod Sessions
pub mod Detection
pub mod Managers
pub mod Recordings
pub mod Tables
pub mod Balances
