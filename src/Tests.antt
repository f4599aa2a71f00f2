-- ===== src/Tests.antt =====
-- The theorems at concrete inputs.
mod Setup
mod Pipeline
mod Resolved
mod Store
mod Outbox
mod Replay
mod Packs
mod Decode
mod Queue
mod Ingest
mod Events
mod Connections
mod Syslog
mod Manager
