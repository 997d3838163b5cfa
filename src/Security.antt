-- ===== src/Security.antt =====
-- security/: who a client is and what it may do.
pub mod Auth
pub mod Policy
pub mod Peers
