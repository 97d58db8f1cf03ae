-- ===== src/Stores.antt =====
-- The stores of packages storev1 and storev2, the configuration and the start of the plugin.
pub mod Config
pub mod V1
pub mod V2
pub mod StartUp
