-- ===== src/Observability/Versioning.antt =====
-- observability/versioning.rs: versions of the security state, chained by their hashes, their bounded
-- history, and the store that keeps them in a file.
pub mod Version
pub mod History
pub mod Store
pub mod Manager
