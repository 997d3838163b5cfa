-- ===== src/Core.antt =====
-- core/: the agent's state machine, its shutdown and its failure handling.
pub mod Alerting
pub mod CircuitBreaker
pub mod Failure
pub mod Shutdown
pub mod StateMachine
