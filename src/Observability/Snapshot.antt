-- ===== src/Observability/Snapshot.antt =====
-- observability/snapshot.rs: the builder of a security snapshot, its security version and its score.
-- What a snapshot takes from its surroundings (an identifier, the time, the names of the host and of
-- the agent's version) is an argument.
pub mod Scored
use project_whitequbit.Base.{
  ℕ, ◌%◌, u64, String, Bool, true, false, not, Option, none, some, List, [], ◌∷◌, ◌++◌, text_key,
  ◌==◌,
}
use project_whitequbit.Observability.Posture.{
  AuthPosture, default_posture, posture_bytes, security_score,
}
use project_whitequbit.Observability.Summaries.{
  Printing, PortSummary, allow, FirewallSummary, ServicesSummary,
}
use project_whitequbit.Observability.Summaries.Bytes.{ports_bytes, firewall_bytes, services_bytes}

pub record SnapshotMetadata : Type 0 where
  pub id : String
  pub timestamp : ℕ
  pub hostname : String
  pub agent_version : String
  pub collection_duration_ms : ℕ
  pub parent_hash : Option String
  pub sequence : ℕ

pub record SecuritySnapshot : Type 0 where
  pub metadata : SnapshotMetadata
  pub ports : PortSummary
  pub firewall : FirewallSummary
  pub services : ServicesSummary
  pub auth_posture : AuthPosture
  pub security_version : String
  pub score : ℕ

pub record SnapshotBuilder : Type 0 where
  pub ports : Option PortSummary
  pub firewall : Option FirewallSummary
  pub services : Option ServicesSummary
  pub auth_posture : Option AuthPosture
  pub parent_hash : Option String
  pub sequence : ℕ

unfoldable pub new_builder : SnapshotBuilder
new_builder = record {
  ports = none;
  firewall = none;
  services = none;
  auth_posture = none;
  parent_hash = none;
  sequence = 0;
}

unfoldable pub with_ports : PortSummary → SnapshotBuilder → SnapshotBuilder
with_ports ports b = record b { ports = some ports }

unfoldable pub with_firewall : FirewallSummary → SnapshotBuilder → SnapshotBuilder
with_firewall firewall b = record b { firewall = some firewall }

unfoldable pub with_services : ServicesSummary → SnapshotBuilder → SnapshotBuilder
with_services services b = record b { services = some services }

unfoldable pub with_posture : AuthPosture → SnapshotBuilder → SnapshotBuilder
with_posture auth b = record b { auth_posture = some auth }

unfoldable pub with_parent : String → SnapshotBuilder → SnapshotBuilder
with_parent hash b = record b { parent_hash = some hash }

unfoldable pub with_sequence : ℕ → SnapshotBuilder → SnapshotBuilder
with_sequence seq b = record b { sequence = seq }

-- The derived defaults of the summaries.
abbrev pub no_ports : PortSummary
no_ports = record {
  ports = [];
  tcp_count = 0;
  udp_count = 0;
  privileged_count = 0;
  wildcard_count = 0;
}

abbrev pub no_firewall : FirewallSummary
no_firewall = record {
  enabled = false;
  default_inbound = allow;
  default_outbound = allow;
  total_rules = 0;
  agent_managed_rules = 0;
  rules = [];
  backend = "";
}

abbrev pub no_services : ServicesSummary
no_services = record {
  services = [];
  running_count = 0;
  stopped_count = 0;
  failed_count = 0;
  security_services_running = 0;
  has_security_issues = false;
}

abbrev pub unwrap_or : {A : Type 0} → A → Option A → A
unwrap_or a none = a
unwrap_or a (some b) = b

abbrev pub posture_of : SnapshotBuilder → AuthPosture
unfolding default_posture
posture_of b = unwrap_or default_posture b.auth_posture

-- What `build` takes from its surroundings; the duration is in milliseconds.
pub record Surroundings : Type 0 where
  pub id : String
  pub now : ℕ
  pub hostname : String
  pub agent_version : String
  pub collection_duration : ℕ

unfoldable pub differs_from : SecuritySnapshot → SecuritySnapshot → Bool
differs_from new old = not (new.security_version == old.security_version)

-- `version_digest` gives the first 32 characters of the hash in hexadecimal.
module _ (version_digest : List ℕ → String) (printing : Printing) where
  -- What the hasher is fed: the canonical bytes, with 0xFF between them.
  unfoldable pub hashed_bytes :
      PortSummary → FirewallSummary → ServicesSummary → AuthPosture → List ℕ
  hashed_bytes ports firewall services auth =
      ports_bytes printing ports
      ++ (255 ∷ firewall_bytes printing firewall
          ++ (255 ∷ services_bytes printing services ++ (255 ∷ posture_bytes auth)))

  unfoldable pub compute_security_version :
      PortSummary → FirewallSummary → ServicesSummary → AuthPosture → String
  compute_security_version ports firewall services auth =
      version_digest (hashed_bytes ports firewall services auth)

  unfoldable pub build : Surroundings → SnapshotBuilder → SecuritySnapshot
  build around b =
      let ports = unwrap_or no_ports b.ports in
      let firewall = unwrap_or no_firewall b.firewall in
      let services = unwrap_or no_services b.services in
      let auth = posture_of b in
      record {
        metadata = record {
          id = around.id;
          timestamp = around.now;
          hostname = around.hostname;
          agent_version = around.agent_version;
          collection_duration_ms = u64 around.collection_duration;
          parent_hash = b.parent_hash;
          sequence = b.sequence;
        };
        ports = ports;
        firewall = firewall;
        services = services;
        auth_posture = auth;
        security_version = compute_security_version ports firewall services auth;
        score = security_score auth;
      }
