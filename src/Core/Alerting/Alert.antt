-- ===== src/Core/Alerting/Alert.antt =====
-- core/alerting.rs: alerts, and requests for an operator.
use project_whitequbit.Base.{ℕ, String, Bool, false, Option, none, some, List, [], ◌∷◌, ◌++◌}
use project_whitequbit.Core.Failure.Records.{
  FailureCategory, rollback_failed, configuration_invalid, security_violation, crash, action_failed,
  state_inconsistent, dependency_failed, resource_exhausted, timeout, unknown, FailureSeverity,
  warning as severity_warning, error, critical as severity_critical, fatal, FailureRecord,
}

pub data AlertPriority : Type 0 where
  info warning critical emergency : AlertPriority

-- The derived order.
abbrev pub priority_rank : AlertPriority → ℕ
priority_rank info = 0
priority_rank warning = 1
priority_rank critical = 2
priority_rank emergency = 3

unfoldable pub priority_of : FailureSeverity → AlertPriority
priority_of severity_warning = warning
priority_of error = warning
priority_of severity_critical = critical
priority_of fatal = emergency

pub record Alert : Type 0 where
  pub alert_id : ℕ
  pub timestamp : ℕ
  pub priority : AlertPriority
  pub title : String
  pub message : String
  pub component : String
  pub acknowledged : Bool
  pub acknowledged_by : Option String
  pub acknowledged_at : Option ℕ
  pub failure_id : Option ℕ
  pub recommended_actions : List String

unfoldable pub new_alert : ℕ → AlertPriority → String → String → String → ℕ → Alert
new_alert alert_id priority title message component now = record {
  alert_id = alert_id;
  timestamp = now;
  priority = priority;
  title = title;
  message = message;
  component = component;
  acknowledged = false;
  acknowledged_by = none;
  acknowledged_at = none;
  failure_id = none;
  recommended_actions = [];
}

unfoldable pub link_failure : ℕ → Alert → Alert
link_failure failure_id a = record a { failure_id = some failure_id }

unfoldable pub recommend : String → Alert → Alert
recommend action a = record a { recommended_actions = a.recommended_actions ++ action ∷ [] }

-- The actions that are recommended for a category.
unfoldable pub actions_for : FailureCategory → List String
actions_for rollback_failed = "Check system state manually" ∷ "Review rollback logs" ∷ []
actions_for configuration_invalid =
    "Review configuration file" ∷ "Restore from backup if available" ∷ []
actions_for security_violation =
    "Review audit logs immediately" ∷ "Check for unauthorized access" ∷ []
actions_for crash = []
actions_for action_failed = []
actions_for state_inconsistent = []
actions_for dependency_failed = []
actions_for resource_exhausted = []
actions_for timeout = []
actions_for unknown = []

abbrev or_empty : Option String → String
or_empty none = ""
or_empty (some s) = s

-- `title` is the text of a category and a message.
unfoldable pub from_failure : (FailureCategory → String → String) → ℕ → FailureRecord → ℕ → Alert
unfolding new_alert link_failure actions_for priority_of
from_failure title alert_id f now =
    let a = link_failure f.failure_id (
      new_alert alert_id (priority_of f.severity) (title f.category f.message) (or_empty f.details)
        f.component now) in
    record a { recommended_actions = actions_for f.category }

pub data InterventionType : Type 0 where
  acknowledge_kill_switch manual_rollback config_repair : InterventionType
  security_review system_recovery other : InterventionType

pub record InterventionRequest : Type 0 where
  pub request_id : ℕ
  pub requested_at : ℕ
  pub intervention_type : InterventionType
  pub description : String
  pub related_alerts : List ℕ
  pub related_failures : List ℕ
  pub steps : List String
  pub resolved : Bool
  pub resolution_notes : Option String

unfoldable pub new_intervention : ℕ → InterventionType → String → ℕ → InterventionRequest
new_intervention request_id intervention_type description now = record {
  request_id = request_id;
  requested_at = now;
  intervention_type = intervention_type;
  description = description;
  related_alerts = [];
  related_failures = [];
  steps = [];
  resolved = false;
  resolution_notes = none;
}

unfoldable pub with_step : String → InterventionRequest → InterventionRequest
with_step step r = record r { steps = r.steps ++ step ∷ [] }

unfoldable pub relate_alert : ℕ → InterventionRequest → InterventionRequest
relate_alert id r = record r { related_alerts = r.related_alerts ++ id ∷ [] }

unfoldable pub relate_failure : ℕ → InterventionRequest → InterventionRequest
relate_failure id r = record r { related_failures = r.related_failures ++ id ∷ [] }
