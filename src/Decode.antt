-- ===== src/Decode.antt =====
-- internal/decode
pub mod Header
pub mod Values
pub mod Syslog
pub mod Detect
