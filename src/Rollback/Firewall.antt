-- ===== src/Rollback/Firewall.antt =====
-- rollback/firewall_rollback.rs: the records of the firewall rules that the agent made, and their
-- rollback. `S` is the specification of a rule.
pub mod Record
pub mod Registry
pub mod Log
pub mod Results
pub mod Engine
