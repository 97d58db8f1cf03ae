-- ===== src/Writer.antt =====
-- The writers of packages storev1 and storev2 (storev1/writer.go, storev2/writer.go).
pub mod Batch
pub mod Spans
pub mod Send
pub mod Senders
