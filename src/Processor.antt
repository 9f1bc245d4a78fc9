-- ===== src/Processor.antt =====
-- internal/processor
pub mod Normalizer
pub mod Dlq
pub mod Dedup
pub mod Alerts
pub mod Worker
