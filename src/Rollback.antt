-- ===== src/Rollback.antt =====
-- rollback/: the write-ahead journal, the compensator, and the recovery after a crash.
pub mod Firewall
pub mod Journal
pub mod Checkpoint
pub mod Compensator
pub mod Recovery
