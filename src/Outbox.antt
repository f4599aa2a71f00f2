-- ===== src/Outbox.antt =====
-- internal/outbox/outbox.go, and the delivery loop of internal/pipeline/pipeline.go over it.
pub mod Queue
pub mod Rows
pub mod Deliver
