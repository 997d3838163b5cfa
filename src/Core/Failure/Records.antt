-- ===== src/Core/Failure/Records.antt =====
-- core/failure.rs: the records of failures, the safe defaults, and what the default handler answers.
use project_whitequbit.Base.{ℕ, String, Bool, true, false, Option, none, some, List, [], ◌∷◌}
use project_whitequbit.Base.Sorted.{SortedMap, put}

pub data FailureCategory : Type 0 where
  crash action_failed rollback_failed configuration_invalid state_inconsistent : FailureCategory
  dependency_failed resource_exhausted security_violation timeout unknown : FailureCategory

pub data FailureSeverity : Type 0 where
  warning error critical fatal : FailureSeverity

pub data FailureAction : Type 0 where
  retry : ℕ → ℕ → FailureAction
  skip rollback apply_safe_defaults activate_kill_switch require_intervention shutdown :
      FailureAction

pub record FailureRecord : Type 0 where
  pub failure_id : ℕ
  pub timestamp : ℕ
  pub category : FailureCategory
  pub severity : FailureSeverity
  pub message : String
  pub details : Option String
  pub component : String
  pub action_taken : FailureAction
  pub recovered : Bool
  pub context : SortedMap String

unfoldable pub new_record :
    ℕ → FailureCategory → FailureSeverity → String → String → ℕ → FailureRecord
new_record failure_id category severity message component now = record {
  failure_id = failure_id;
  timestamp = now;
  category = category;
  severity = severity;
  message = message;
  details = none;
  component = component;
  action_taken = skip;
  recovered = false;
  context = [];
}

unfoldable pub with_details : String → FailureRecord → FailureRecord
with_details details r = record r { details = some details }

unfoldable pub with_context : String → String → FailureRecord → FailureRecord
with_context key value r = record r { context = put key value r.context }

unfoldable pub with_action : FailureAction → FailureRecord → FailureRecord
with_action action r = record r { action_taken = action }

unfoldable pub mark_recovered : FailureRecord → FailureRecord
mark_recovered r = record r { recovered = true }

pub data DefaultPolicy : Type 0 where
  accept drop reject : DefaultPolicy

pub record AllowedPort : Type 0 where
  pub port : ℕ
  pub protocol : String
  pub description : String

pub record FirewallDefaults : Type 0 where
  pub input_policy : DefaultPolicy
  pub output_policy : DefaultPolicy
  pub forward_policy : DefaultPolicy
  pub allowed_ports : List AllowedPort
  pub flush_first : Bool

unfoldable pub firewall_defaults : FirewallDefaults
firewall_defaults = record {
  input_policy = drop;
  output_policy = accept;
  forward_policy = drop;
  allowed_ports =
      record { port = 22; protocol = "tcp"; description = "SSH for emergency access" } ∷ [];
  flush_first = false;
}

pub record ServiceDefaults : Type 0 where
  pub ensure_running : List String
  pub stop_in_emergency : List String

unfoldable pub service_defaults : ServiceDefaults
service_defaults = record { ensure_running = "sshd" ∷ []; stop_in_emergency = [] }

pub record AccessDefaults : Type 0 where
  pub reject_new_connections : Bool
  pub allow_established : Bool
  pub trusted_sources : List String

unfoldable pub access_defaults : AccessDefaults
access_defaults = record {
  reject_new_connections = true;
  allow_established = true;
  trusted_sources = [];
}

pub record SafeDefaults : Type 0 where
  pub firewall : FirewallDefaults
  pub services : ServiceDefaults
  pub access : AccessDefaults

unfoldable pub safe_defaults : SafeDefaults
unfolding firewall_defaults service_defaults access_defaults
safe_defaults = record {
  firewall = firewall_defaults;
  services = service_defaults;
  access = access_defaults;
}

pub record DefaultFailureHandler : Type 0 where
  pub max_retries : ℕ
  pub retry_delay_ms : ℕ

unfoldable pub default_handler : DefaultFailureHandler
default_handler = record { max_retries = 3; retry_delay_ms = 1000 }

abbrev retrying : DefaultFailureHandler → FailureAction
retrying h = retry h.max_retries h.retry_delay_ms

unfoldable pub handle_failure :
    DefaultFailureHandler → FailureCategory → FailureSeverity → FailureAction
handle_failure h c fatal = activate_kill_switch
handle_failure h rollback_failed s = require_intervention
handle_failure h state_inconsistent s = apply_safe_defaults
handle_failure h configuration_invalid s = apply_safe_defaults
handle_failure h security_violation s = activate_kill_switch
handle_failure h dependency_failed warning = retrying h
handle_failure h timeout warning = retrying h
handle_failure h action_failed error = rollback
handle_failure h crash critical = apply_safe_defaults
handle_failure h c s = skip
