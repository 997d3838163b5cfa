-- ===== src/Ttl.antt =====
-- firewall/ttl.rs, the engine that expires temporary firewall rules.
pub mod Entry
pub mod Index
pub mod Registry
pub mod Coordinator
pub mod Persister
pub mod Engine
pub mod Expiry
pub mod Recovery
