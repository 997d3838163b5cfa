-- ===== src/Observability/Summaries.antt =====
-- The summaries of observability/snapshot.rs: open ports, firewall rules and critical services, with
-- the bytes of them that go into the security version. Each summary is taken as collected: the
-- constructors `from_ports` and `from_services`, which sort and count, are not here. An address is its text.
pub mod Bytes
use project_whitequbit.Base.{
  ℕ, ◌+◌, String, Bool, true, false, Option, none, some, List, [], ◌∷◌, ◌++◌, ltb,
}
use project_whitequbit.Base.Hash.{le_bytes}

-- The bytes of a text and of a number in decimal.
pub record Printing : Type 0 where
  pub text_bytes : String → List ℕ
  pub decimal_bytes : ℕ → List ℕ

pub data PortProtocol : Type 0 where
  tcp : PortProtocol
  udp : PortProtocol

pub data PortState : Type 0 where
  listen : PortState
  established : PortState
  time_wait : PortState
  unknown_state : PortState

pub record OpenPort : Type 0 where
  pub protocol : PortProtocol
  pub port : ℕ
  pub bind_address : String
  pub state : PortState
  pub process_name : Option String
  pub is_privileged : Bool

unfoldable pub new_port : PortProtocol → ℕ → String → OpenPort
new_port protocol port bind_address = record {
  protocol = protocol;
  port = port;
  bind_address = bind_address;
  state = listen;
  process_name = none;
  is_privileged = ltb port 1024;
}

unfoldable pub with_process : String → OpenPort → OpenPort
with_process name p = record p { process_name = some name }

unfoldable pub with_state : PortState → OpenPort → OpenPort
with_state state p = record p { state = state }

pub record PortSummary : Type 0 where
  pub ports : List OpenPort
  pub tcp_count : ℕ
  pub udp_count : ℕ
  pub privileged_count : ℕ
  pub wildcard_count : ℕ

pub data RuleAction : Type 0 where
  allow : RuleAction
  block : RuleAction
  reject : RuleAction
  rate_limit : RuleAction
  log : RuleAction

pub data TrafficDirection : Type 0 where
  inbound : TrafficDirection
  outbound : TrafficDirection
  forward : TrafficDirection

-- An `i32`: a number that is not negative, or the negative number one below minus `n`.
pub data Priority : Type 0 where
  above : ℕ → Priority
  below : ℕ → Priority

pub record FirewallRuleSummary : Type 0 where
  pub id : String
  pub chain : String
  pub action : RuleAction
  pub direction : TrafficDirection
  pub protocol : Option String
  pub port : Option ℕ
  pub has_source_filter : Bool
  pub has_dest_filter : Bool
  pub agent_managed : Bool
  pub priority : Priority

pub record FirewallSummary : Type 0 where
  pub enabled : Bool
  pub default_inbound : RuleAction
  pub default_outbound : RuleAction
  pub total_rules : ℕ
  pub agent_managed_rules : ℕ
  pub rules : List FirewallRuleSummary
  pub backend : String

pub data ServiceStatus : Type 0 where
  running : ServiceStatus
  stopped : ServiceStatus
  failed : ServiceStatus
  unknown_status : ServiceStatus
  starting : ServiceStatus
  stopping : ServiceStatus

pub data ServiceCategory : Type 0 where
  authentication : ServiceCategory
  firewall_service : ServiceCategory
  audit_service : ServiceCategory
  intrusion_detection : ServiceCategory
  anti_malware : ServiceCategory
  network : ServiceCategory
  system : ServiceCategory
  other : ServiceCategory

pub record CriticalService : Type 0 where
  pub name : String
  pub status : ServiceStatus
  pub enabled : Bool
  pub is_security_service : Bool
  pub category : ServiceCategory

unfoldable pub new_service : String → ServiceStatus → CriticalService
new_service name status = record {
  name = name;
  status = status;
  enabled = false;
  is_security_service = false;
  category = other;
}

unfoldable pub security_service : ServiceCategory → CriticalService → CriticalService
security_service category s = record s { is_security_service = true; category = category }

unfoldable pub with_enabled : Bool → CriticalService → CriticalService
with_enabled enabled s = record s { enabled = enabled }

pub record ServicesSummary : Type 0 where
  pub services : List CriticalService
  pub running_count : ℕ
  pub stopped_count : ℕ
  pub failed_count : ℕ
  pub security_services_running : ℕ
  pub has_security_issues : Bool
