-- ===== src/Audit/Immutable.antt =====
-- audit/immutable.rs: the audit log with a write-ahead file and checkpoints.
pub mod Entry
pub mod Builder
pub mod Merkle
pub mod Verify
pub mod Wal
pub mod Log
pub mod Open
pub mod Calls
