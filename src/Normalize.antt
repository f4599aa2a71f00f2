-- ===== src/Normalize.antt =====
-- internal/normalize
pub mod Taxonomy
pub mod Event
pub mod Validate
