-- ===== src/Go.antt =====
-- The parts of Go's standard library that the plugin computes with, as functions on bytes.
pub mod Strings
pub mod Decimal
pub mod Base64
