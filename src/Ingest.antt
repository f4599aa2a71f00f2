-- ===== src/Ingest.antt =====
-- internal/ingest
pub mod Frames
pub mod Files
pub mod Manager
pub mod Inbox
