-- ===== src/Observability/Versioning/Version.antt =====
-- observability/versioning.rs: a version and its hash. `VersionHash` wraps a string; times are arguments.
use project_whitequbit.Base.{
  ℕ, ◌+◌, u64, String, Bool, Option, none, List, [], ◌∷◌, ◌++◌, nat_eqb, ◌&&◌, text_key, ◌==◌,
}
use project_whitequbit.Base.Hash.{Hashing, le_bytes}
use project_whitequbit.Audit.Immutable.Entry.{first_chars}

abbrev pub VersionHash : Type 0
VersionHash = String

unfoldable pub genesis_hash : VersionHash
genesis_hash = "0000000000000000000000000000000000000000000000000000000000000000"

unfoldable pub is_genesis : VersionHash → Bool
unfolding genesis_hash
is_genesis hash = hash == genesis_hash

pub data VersionChangeType : Type 0 where
  initial firewall_rule_added firewall_rule_removed firewall_rule_modified : VersionChangeType
  port_opened port_closed service_started service_stopped : VersionChangeType
  auth_config_changed posture_improved posture_degraded manual_change : VersionChangeType
  rollback recovery periodic_snapshot unknown : VersionChangeType

-- `change_type as u8`
unfoldable pub change_number : VersionChangeType → ℕ
change_number initial = 0
change_number firewall_rule_added = 1
change_number firewall_rule_removed = 2
change_number firewall_rule_modified = 3
change_number port_opened = 4
change_number port_closed = 5
change_number service_started = 6
change_number service_stopped = 7
change_number auth_config_changed = 8
change_number posture_improved = 9
change_number posture_degraded = 10
change_number manual_change = 11
change_number rollback = 12
change_number recovery = 13
change_number periodic_snapshot = 14
change_number unknown = 255

unfoldable pub change_text : VersionChangeType → String
change_text initial = "initial"
change_text firewall_rule_added = "firewall_rule_added"
change_text firewall_rule_removed = "firewall_rule_removed"
change_text firewall_rule_modified = "firewall_rule_modified"
change_text port_opened = "port_opened"
change_text port_closed = "port_closed"
change_text service_started = "service_started"
change_text service_stopped = "service_stopped"
change_text auth_config_changed = "auth_config_changed"
change_text posture_improved = "posture_improved"
change_text posture_degraded = "posture_degraded"
change_text manual_change = "manual_change"
change_text rollback = "rollback"
change_text recovery = "recovery"
change_text periodic_snapshot = "periodic_snapshot"
change_text unknown = "unknown"

pub record VersionMetadata : Type 0 where
  pub security_score : Option ℕ
  pub action_id : Option String
  pub operator : Option String
  pub affected_resources : List String
  pub rollback_target : Option String

unfoldable pub no_metadata : VersionMetadata
no_metadata = record {
  security_score = none;
  action_id = none;
  operator = none;
  affected_resources = [];
  rollback_target = none;
}

pub record SecurityVersion : Type 0 where
  pub sequence : ℕ
  pub content_hash : VersionHash
  pub version_hash : VersionHash
  pub parent_hash : VersionHash
  pub timestamp : ℕ
  pub timestamp_ms : ℕ
  pub change_summary : String
  pub change_type : VersionChangeType
  pub metadata : VersionMetadata

-- The two readings of the clock, as a time and in milliseconds.
pub record Clock : Type 0 where
  pub now : ℕ
  pub now_ms : ℕ

module _ {D : Type 0} (hashing : Hashing D) where
  open hashing use {digest, text_bytes}

  unfoldable pub compute_version_hash : SecurityVersion → VersionHash
  unfolding change_number
  compute_version_hash v = first_chars 32 (
      digest (
        le_bytes 8 v.sequence
        ++ (le_bytes 8 v.timestamp_ms
            ++ (text_bytes v.parent_hash
                ++ (text_bytes v.content_hash
                    ++ (text_bytes v.change_summary ++ change_number v.change_type ∷ []))))))

  unfoldable pub new_version :
      ℕ → VersionHash → VersionHash → String → VersionChangeType → Clock → SecurityVersion
  unfolding no_metadata
  new_version sequence content_hash parent_hash change_summary change_type clock =
      let v : SecurityVersion = record {
        sequence = sequence;
        content_hash = content_hash;
        version_hash = "";
        parent_hash = parent_hash;
        timestamp = clock.now;
        timestamp_ms = clock.now_ms;
        change_summary = change_summary;
        change_type = change_type;
        metadata = no_metadata;
      } in
      record v { version_hash = compute_version_hash v }

  unfoldable pub genesis_version : VersionHash → Clock → SecurityVersion
  unfolding genesis_hash new_version
  genesis_version content_hash =
      new_version 0 content_hash genesis_hash "Initial security state" initial

  unfoldable pub verify_version : SecurityVersion → Bool
  verify_version v = compute_version_hash v == v.version_hash

unfoldable pub follows : SecurityVersion → SecurityVersion → Bool
follows v other =
    v.parent_hash == other.version_hash && nat_eqb v.sequence (u64 (other.sequence + 1))
