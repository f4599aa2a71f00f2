-- ===== src/Connections.antt =====
-- internal/connections
pub mod Manager
pub mod Loader
