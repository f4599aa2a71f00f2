-- ===== src/Packs.antt =====
-- internal/packs
pub mod Lookup
pub mod Match
pub mod Snapshot
pub mod Extract
pub mod Validate
pub mod Manager
