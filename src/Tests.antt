-- ===== src/Tests.antt =====
-- Concrete values at which the theorems are applied.
pub mod Hex
pub mod Samples
pub mod WriterRuns
pub mod SpanRuns
pub mod ReadRuns
pub mod HttpRuns
pub mod SentRuns
pub mod TraceRuns
pub mod InfluxQlRuns
pub mod QueryRuns
pub mod ReaderRuns
pub mod InfluxQlReaderRuns
pub mod StoreRuns
pub mod WrittenRuns
pub mod SenderRuns
