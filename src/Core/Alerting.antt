-- ===== src/Core/Alerting.antt =====
-- core/alerting.rs: what operators see of the agent. Times are arguments; texts that a format string builds from
-- values are parameters.
pub mod Alert
pub mod Manager
