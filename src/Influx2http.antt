-- ===== src/Influx2http.antt =====
-- The HTTP client of InfluxDB 2 (package influx2http).
pub mod Http
pub mod Buckets
pub mod Organizations
pub mod WriteService
pub mod QueryRequest
pub mod FluxQuery
