-- ===== src/Observability/Summaries/Bytes.antt =====
-- The canonical bytes of the summaries of observability/snapshot.rs. The bytes of a `format!` are those
-- of its parts, one after another, with a colon between them.
use project_whitequbit.Base.{ℕ, ◌+◌, String, Bool, true, false, List, [], ◌∷◌, ◌++◌}
use project_whitequbit.Base.Hash.{le_bytes}
use project_whitequbit.Observability.Summaries.{
  Printing, PortProtocol, tcp, udp, PortState, listen, established, time_wait, unknown_state,
  OpenPort, PortSummary, RuleAction, allow, block, reject, rate_limit, log, TrafficDirection,
  inbound, outbound, forward, Priority, above, below, FirewallRuleSummary, FirewallSummary,
  ServiceStatus, running, stopped, failed, unknown_status, starting, stopping, ServiceCategory,
  authentication, firewall_service, audit_service, intrusion_detection, anti_malware, network,
  system, other, CriticalService, ServicesSummary,
}

abbrev protocol_text : PortProtocol → String
protocol_text tcp = "tcp"
protocol_text udp = "udp"

abbrev state_number : PortState → ℕ
state_number listen = 0
state_number established = 1
state_number time_wait = 2
state_number unknown_state = 3

abbrev action_text : RuleAction → String
action_text allow = "Allow"
action_text block = "Block"
action_text reject = "Reject"
action_text rate_limit = "RateLimit"
action_text log = "Log"

abbrev action_number : RuleAction → ℕ
action_number allow = 0
action_number block = 1
action_number reject = 2
action_number rate_limit = 3
action_number log = 4

abbrev direction_text : TrafficDirection → String
direction_text inbound = "Inbound"
direction_text outbound = "Outbound"
direction_text forward = "Forward"

abbrev status_number : ServiceStatus → ℕ
status_number running = 0
status_number stopped = 1
status_number failed = 2
status_number unknown_status = 3
status_number starting = 4
status_number stopping = 5

abbrev category_text : ServiceCategory → String
category_text authentication = "Authentication"
category_text firewall_service = "Firewall"
category_text audit_service = "Audit"
category_text intrusion_detection = "IntrusionDetection"
category_text anti_malware = "AntiMalware"
category_text network = "Network"
category_text system = "System"
category_text other = "Other"

abbrev flag_text : Bool → String
flag_text true = "true"
flag_text false = "false"

abbrev flag_byte : Bool → ℕ
flag_byte true = 1
flag_byte false = 0

-- The parts of a `format!` with a colon, number 58, between them.
abbrev colons : List (List ℕ) → List ℕ
colons [] = []
colons (part ∷ []) = part
colons (part ∷ next ∷ parts) = part ++ 58 ∷ colons (next ∷ parts)

module _ (printing : Printing) where
  open printing use {text_bytes, decimal_bytes}

  unfoldable pub port_bytes : OpenPort → List ℕ
  port_bytes p = colons (
      text_bytes (protocol_text p.protocol)
      ∷ decimal_bytes p.port
      ∷ text_bytes p.bind_address
      ∷ decimal_bytes (state_number p.state)
      ∷ [])

  -- The loops of the three `canonical_bytes`: each item and a separating zero.
  unfoldable pub all_ports : List OpenPort → List ℕ
  all_ports [] = []
  all_ports (p ∷ ports) = port_bytes p ++ 0 ∷ all_ports ports

  unfoldable pub ports_bytes : PortSummary → List ℕ
  ports_bytes s = all_ports s.ports

  abbrev priority_bytes : Priority → List ℕ
  priority_bytes (above n) = decimal_bytes n
  priority_bytes (below n) = 45 ∷ decimal_bytes (n + 1)

  unfoldable pub rule_bytes : FirewallRuleSummary → List ℕ
  rule_bytes r = colons (
      text_bytes r.id
      ∷ text_bytes r.chain
      ∷ text_bytes (action_text r.action)
      ∷ text_bytes (direction_text r.direction)
      ∷ text_bytes (flag_text r.has_source_filter)
      ∷ text_bytes (flag_text r.has_dest_filter)
      ∷ text_bytes (flag_text r.agent_managed)
      ∷ priority_bytes r.priority
      ∷ [])

  unfoldable pub all_rules : List FirewallRuleSummary → List ℕ
  all_rules [] = []
  all_rules (r ∷ rules) = rule_bytes r ++ 0 ∷ all_rules rules

  unfoldable pub firewall_bytes : FirewallSummary → List ℕ
  firewall_bytes f =
      flag_byte f.enabled
      ∷ action_number f.default_inbound
      ∷ action_number f.default_outbound
      ∷ (le_bytes 4 f.total_rules
          ++ (le_bytes 4 f.agent_managed_rules ++ (text_bytes f.backend ++ 0 ∷ all_rules f.rules)))

  unfoldable pub service_bytes : CriticalService → List ℕ
  service_bytes s = colons (
      text_bytes s.name
      ∷ decimal_bytes (status_number s.status)
      ∷ text_bytes (flag_text s.enabled)
      ∷ text_bytes (flag_text s.is_security_service)
      ∷ text_bytes (category_text s.category)
      ∷ [])

  unfoldable pub all_services : List CriticalService → List ℕ
  all_services [] = []
  all_services (s ∷ services) = service_bytes s ++ 0 ∷ all_services services

  unfoldable pub services_bytes : ServicesSummary → List ℕ
  services_bytes s = all_services s.services
