-- ===== src/Output.antt =====
-- internal/output: the sinks that are made of other sinks.
pub mod Retry
