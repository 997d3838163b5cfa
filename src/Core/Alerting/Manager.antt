-- ===== src/Core/Alerting/Manager.antt =====
-- core/alerting.rs: the manager of the alerts, and the status. `takes_writes` says whether the files take writes;
-- uptime is in seconds.
pub mod Shown
use project_whitequbit.Base.{
  ℕ, zero, suc, ◌+◌, ◌-◌, u64, String, Bool, true, false, Option, none, some, List, [], ◌∷◌, ◌++◌,
  Result, ok, err, length, keep, leb, ltb, nat_eqb, not, reverse, ◌||◌, if◌then◌else◌,
}
use project_whitequbit.Core.Failure.{FailureError, io, KillSwitchState}
use project_whitequbit.Core.Failure.Records.{
  FailureCategory, rollback_failed, configuration_invalid, security_violation, crash, action_failed,
  state_inconsistent, dependency_failed, resource_exhausted, timeout, unknown, FailureSeverity,
  warning as severity_warning, error, critical as severity_critical, fatal, FailureRecord,
}
use project_whitequbit.Core.Alerting.Alert.{Alert, AlertPriority, priority_rank, from_failure}

pub data HealthStatus : Type 0 where
  healthy degraded blocked critical offline : HealthStatus

pub record ConfigStatus : Type 0 where
  pub using_primary : Bool
  pub using_fallback : Bool
  pub checksum : Option String
  pub loaded_at : Option ℕ
  pub warnings : List String

unfoldable pub default_config_status : ConfigStatus
default_config_status = record {
  using_primary = true;
  using_fallback = false;
  checksum = none;
  loaded_at = none;
  warnings = [];
}

pub record AgentStatus : Type 0 where
  pub timestamp : ℕ
  pub health : HealthStatus
  pub message : String
  pub kill_switch : KillSwitchState
  pub pending_actions : ℕ
  pub in_flight_actions : ℕ
  pub unacked_alerts : ℕ
  pub recent_failures : ℕ
  pub uptime_seconds : ℕ
  pub last_action_at : Option ℕ
  pub config_status : ConfigStatus

pub record AlertManager : Type 0 where
  pub alerts : List Alert
  pub max_alerts : ℕ
  pub next_id : ℕ
  pub lines : List Alert
  pub status : Option AgentStatus
  pub takes_writes : Bool

unfoldable pub new_alert_manager : List Alert → Option AgentStatus → Bool → AlertManager
new_alert_manager lines status takes_writes = record {
  alerts = [];
  max_alerts = 1000;
  next_id = 1;
  lines = lines;
  status = status;
  takes_writes = takes_writes;
}

-- The loop that pops the front while there are too many, for the number of those.
abbrev pub pop_front : ℕ → List Alert → List Alert
pop_front zero alerts = alerts
pop_front (suc n) [] = []
pop_front (suc n) (a ∷ alerts) = pop_front n alerts

unfoldable pub persist_alert : Alert → AlertManager → AlertManager × Result FailureError (Unit {0})
persist_alert a m =
    if m.takes_writes then (record m { lines = m.lines ++ a ∷ [] }, ok tt) else (m, err io)

abbrev pub identified :
    ℕ → AlertManager × Result FailureError (Unit {0}) → AlertManager × Result FailureError ℕ
identified id (m, err e) = (m, err e)
identified id (m, ok _) = (m, ok id)

-- The alert is in memory whether or not the file takes it.
unfoldable pub raise_alert : Alert → AlertManager → AlertManager × Result FailureError ℕ
unfolding persist_alert
raise_alert alert m =
    let a = record alert { alert_id = m.next_id } in
    let all = m.alerts ++ a ∷ [] in
    let raised = record m {
      next_id = u64 (m.next_id + 1);
      alerts = pop_front (length all - m.max_alerts) all;
    } in
    identified m.next_id (persist_alert a raised)

unfoldable pub alert_from_failure :
    (FailureCategory → String → String)
    → FailureRecord
    → ℕ
    → AlertManager
    → AlertManager × Result FailureError ℕ
unfolding from_failure raise_alert
alert_from_failure title f now m = raise_alert (from_failure title m.next_id f now) m

-- The first alert of the number is changed.
unfoldable pub acknowledge_in : ℕ → String → ℕ → List Alert → List Alert × Bool
acknowledge_in id operator now [] = ([], false)
acknowledge_in id operator now (a ∷ alerts) =
    let (rest, found) = acknowledge_in id operator now alerts in
    if nat_eqb a.alert_id id
    then (
      record a { acknowledged = true; acknowledged_by = some operator; acknowledged_at = some now }
          ∷ alerts,
      true,
    )
    else (a ∷ rest, found)

unfoldable pub acknowledge : ℕ → String → ℕ → AlertManager → AlertManager × Bool
unfolding acknowledge_in
acknowledge id operator now m =
    let (alerts, found) = acknowledge_in id operator now m.alerts in
    (record m { alerts = alerts }, found)

unfoldable pub unacknowledged : AlertManager → List Alert
unacknowledged m = keep (λ a. not a.acknowledged) m.alerts

unfoldable pub by_priority : AlertPriority → AlertManager → List Alert
by_priority p m = keep (λ a. leb (priority_rank p) (priority_rank a.priority)) m.alerts

abbrev take_alerts : ℕ → List Alert → List Alert
take_alerts zero alerts = []
take_alerts (suc n) [] = []
take_alerts (suc n) (a ∷ alerts) = a ∷ take_alerts n alerts

unfoldable pub recent_alerts : ℕ → AlertManager → List Alert
recent_alerts count m = take_alerts count (reverse m.alerts)

unfoldable pub write_status :
    AgentStatus → AlertManager → AlertManager × Result FailureError (Unit {0})
write_status s m = if m.takes_writes then (record m { status = some s }, ok tt) else (m, err io)

unfoldable pub unacked_count : AlertManager → ℕ
unfolding unacknowledged
unacked_count m = length (unacknowledged m)

unfoldable pub health_of : Bool → ℕ → ℕ → HealthStatus
health_of active unacked recent_failures =
    if active
    then critical
    else if ltb 0 unacked || ltb 5 recent_failures
    then degraded
    else healthy

-- What comes from the rest of the agent; `describe` is the message for a health.
pub record Situation : Type 0 where
  pub kill_switch : KillSwitchState
  pub pending_actions : ℕ
  pub in_flight_actions : ℕ
  pub recent_failures : ℕ
  pub last_action_at : Option ℕ
  pub config_status : ConfigStatus

unfoldable pub generate_status :
    (HealthStatus → ℕ → Situation → String) → ℕ → ℕ → Situation → AlertManager → AgentStatus
unfolding unacked_count health_of
generate_status describe now uptime x m =
    let unacked = unacked_count m in
    let health = health_of x.kill_switch.active unacked x.recent_failures in
    record {
      timestamp = now;
      health = health;
      message = describe health unacked x;
      kill_switch = x.kill_switch;
      pending_actions = x.pending_actions;
      in_flight_actions = x.in_flight_actions;
      unacked_alerts = unacked;
      recent_failures = x.recent_failures;
      uptime_seconds = uptime;
      last_action_at = x.last_action_at;
      config_status = x.config_status;
    }
