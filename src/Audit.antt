-- ===== src/Audit.antt =====
-- audit/: the append-only log of entries that are chained by their hashes, and its verification.
pub mod Entry
pub mod Sink
pub mod Logger
pub mod Integrity
pub mod Immutable
