-- ===== src/Registry.antt =====
-- registry: the enumerations that the wire codes decode to.
pub mod Units
pub mod Modes
pub mod Parameters
