-- ===== src/Decode/Syslog.antt =====
-- internal/decode/syslog.go
pub mod Tokens
pub mod Structured
pub mod Message
pub mod Detect
