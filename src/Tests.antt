-- ===== src/Tests.antt =====
-- Tests of the models on concrete inputs, and the theorems at such inputs.
mod Audit
mod FirewallRollback
mod Immutable
mod Core
mod Rollback
mod Security
mod Startup
mod Ttl
mod Snapshot
mod Versions
mod Keeping
