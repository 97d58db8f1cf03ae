-- ===== src/Dbmodel.antt =====
-- Package `dbmodel`: translation between Jaeger's data model and InfluxDB's.
pub mod Model
pub mod KeyValue
pub mod LogText
pub mod References
pub mod SpanTime
pub mod ToPoints
pub mod Flux
pub mod Dependencies
pub mod InfluxQl
pub mod Queries
