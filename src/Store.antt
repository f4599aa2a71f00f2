-- ===== src/Store.antt =====
-- internal/rawstore
pub mod Action
pub mod Raw
pub mod Dead
pub mod Normal
pub mod Keeps
pub mod Evidence
pub mod Counts
pub mod Committed
pub mod Outcome
pub mod Stored
pub mod Commit
