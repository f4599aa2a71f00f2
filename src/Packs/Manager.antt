-- ===== src/Packs/Manager.antt =====
-- internal/packs/manager.go and manifest.go: changes of the directory of packs, and what is done
-- about an interrupted one.
pub mod Disk
pub mod Manifest
pub mod Recovery
pub mod Rules
pub mod Apply
pub mod Rollback
