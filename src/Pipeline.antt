-- ===== src/Pipeline.antt =====
-- internal/pipeline/pipeline.go
pub mod Queue
pub mod World
pub mod Child
pub mod Record
pub mod Replay
