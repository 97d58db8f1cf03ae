-- ===== src/Reader.antt =====
-- The readers of the stores.
pub mod Flux
pub mod InfluxQl
