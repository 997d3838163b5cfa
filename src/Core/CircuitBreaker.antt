-- ===== src/Core/CircuitBreaker.antt =====
-- core/failure.rs, the circuit breaker. `now` is the time of a call; an instant later than it has
-- elapsed by nothing. The counters wrap.
pub mod Thresholds
use project_whitequbit.Base.{
  ℕ, ◌+◌, ◌-◌, Bool, true, false, Option, none, some, leb, if◌then◌else◌, u64, Duration,
}

pub data CircuitState : Type 0 where
  closed opened half_open : CircuitState

pub record CircuitBreaker : Type 0 where
  pub state : CircuitState
  pub failure_count : ℕ
  pub success_count : ℕ
  pub failure_threshold : ℕ
  pub success_threshold : ℕ
  pub reset_timeout : Duration
  pub opened_at : Option ℕ

unfoldable pub new_breaker : ℕ → ℕ → Duration → CircuitBreaker
new_breaker failure_threshold success_threshold reset_timeout = record {
  state = closed;
  failure_count = 0;
  success_count = 0;
  failure_threshold = failure_threshold;
  success_threshold = success_threshold;
  reset_timeout = reset_timeout;
  opened_at = none;
}

abbrev same_state : CircuitState → CircuitState → Bool
same_state closed closed = true
same_state opened opened = true
same_state half_open half_open = true
same_state _ _ = false

-- What a new state resets.
abbrev enter : CircuitState → ℕ → CircuitBreaker → CircuitBreaker
enter closed now b = record b {
  state = closed;
  failure_count = 0;
  success_count = 0;
  opened_at = none;
}
enter opened now b = record b { state = opened; success_count = 0; opened_at = some now }
enter half_open now b = record b { state = half_open; success_count = 0 }

unfoldable pub transition_to : CircuitState → ℕ → CircuitBreaker → CircuitBreaker
transition_to new_state now b = if same_state b.state new_state then b else enter new_state now b

-- Whether the time to wait has passed since the opening.
abbrev pub has_waited : ℕ → Duration → Option ℕ → Bool
has_waited now reset none = false
has_waited now reset (some opened_at) = leb reset (now - opened_at)

unfoldable pub allow_request : ℕ → CircuitBreaker → CircuitBreaker × Bool
unfolding transition_to
allow_request now b = elim b.state [
  | closed ↦ (b, true)
  | opened ↦
      if has_waited now b.reset_timeout b.opened_at
      then (transition_to half_open now b, true)
      else (b, false)
  | half_open ↦ (b, true)
]

unfoldable pub record_success : ℕ → CircuitBreaker → CircuitBreaker
unfolding transition_to
record_success now b = elim b.state [
  | closed ↦ record b { failure_count = 0 }
  | half_open ↦
      let b' = record b { success_count = u64 (b.success_count + 1) } in
      if leb b'.success_threshold b'.success_count then transition_to closed now b' else b'
  | opened ↦ b
]

unfoldable pub record_failure : ℕ → CircuitBreaker → CircuitBreaker
unfolding transition_to
record_failure now b = elim b.state [
  | closed ↦
      let b' = record b { failure_count = u64 (b.failure_count + 1) } in
      if leb b'.failure_threshold b'.failure_count then transition_to opened now b' else b'
  | half_open ↦ transition_to opened now b
  | opened ↦ b
]
