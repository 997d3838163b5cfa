-- ===== src/Observability.antt =====
-- observability/: the versions of the security state, and the posture of the logins.
pub mod Posture
pub mod Snapshot
pub mod Summaries
pub mod Versioning
