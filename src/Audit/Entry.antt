-- ===== src/Audit/Entry.antt =====
-- audit/logger.rs, the entries of the log; audit/mod.rs, the errors. Details are JSON values; their
-- text, like that of a time, comes with the hash.
use project_whitequbit.Base.{ℕ, String, Bool, Option, none, some, List, [], ◌++◌, text_key, ◌==◌}
use project_whitequbit.Base.Hash.{Hashing, le_bytes}

mutual
  -- `serde_json::Value`, as far as the logger builds it.
  pub data Json : Type 0 where
    null : Json
    boolean : Bool → Json
    number : ℕ → Json
    text : String → Json
    object : Fields → Json

  pub data Fields : Type 0 where
    end : Fields
    field : String → Json → Fields → Fields

pub data AuditEventType : Type 0 where
  agent_startup agent_shutdown config_reloaded : AuditEventType
  event_received event_rejected : AuditEventType
  action_prepared action_committed action_rolled_back action_rejected rollback_failed :
      AuditEventType
  authentication_success authentication_failure authorization_denied : AuditEventType
  privilege_dropped sandbox_applied : AuditEventType
  recovery_started recovery_completed : AuditEventType
  integrity_check_passed integrity_check_failed : AuditEventType

-- `format!("{:?}", event_type)`
unfoldable pub event_name : AuditEventType → String
event_name agent_startup = "AgentStartup"
event_name agent_shutdown = "AgentShutdown"
event_name config_reloaded = "ConfigReloaded"
event_name event_received = "EventReceived"
event_name event_rejected = "EventRejected"
event_name action_prepared = "ActionPrepared"
event_name action_committed = "ActionCommitted"
event_name action_rolled_back = "ActionRolledBack"
event_name action_rejected = "ActionRejected"
event_name rollback_failed = "RollbackFailed"
event_name authentication_success = "AuthenticationSuccess"
event_name authentication_failure = "AuthenticationFailure"
event_name authorization_denied = "AuthorizationDenied"
event_name privilege_dropped = "PrivilegeDropped"
event_name sandbox_applied = "SandboxApplied"
event_name recovery_started = "RecoveryStarted"
event_name recovery_completed = "RecoveryCompleted"
event_name integrity_check_passed = "IntegrityCheckPassed"
event_name integrity_check_failed = "IntegrityCheckFailed"

-- The errors that the modelled code raises; the texts of I/O and parse errors are left out.
pub data AuditError : Type 0 where
  io serialization : AuditError

pub record AuditEntry : Type 0 where
  pub sequence : ℕ
  pub timestamp : ℕ
  pub event_type : AuditEventType
  pub actor : Option String
  pub target : Option String
  pub details : Json
  pub previous_hash : String
  pub hash : String

module _ (hashing : Hashing Json) where
  open hashing use {digest, text_bytes, data_bytes, time_bytes}

  abbrev optional_bytes : Option String → List ℕ
  optional_bytes none = []
  optional_bytes (some s) = text_bytes s

  unfoldable pub compute_hash : AuditEntry → String
  compute_hash e = digest (
      le_bytes 8 e.sequence
      ++ (time_bytes e.timestamp
          ++ (text_bytes (event_name e.event_type)
              ++ (optional_bytes e.actor
                  ++ (optional_bytes e.target
                      ++ (data_bytes e.details ++ text_bytes e.previous_hash))))))

  -- `self.hash = self.compute_hash()`
  abbrev pub rehash : AuditEntry → AuditEntry
  rehash e = record e { hash = compute_hash e }

  unfoldable pub new_entry : ℕ → AuditEventType → String → ℕ → AuditEntry
  new_entry sequence event_type previous_hash now = rehash (record {
    sequence = sequence;
    timestamp = now;
    event_type = event_type;
    actor = none;
    target = none;
    details = null;
    previous_hash = previous_hash;
    hash = "";
  })

  unfoldable pub with_actor : String → AuditEntry → AuditEntry
  with_actor actor e = rehash (record e { actor = some actor })

  unfoldable pub with_target : String → AuditEntry → AuditEntry
  with_target target e = rehash (record e { target = some target })

  unfoldable pub with_details : Json → AuditEntry → AuditEntry
  with_details details e = rehash (record e { details = details })

  unfoldable pub verify : AuditEntry → Bool
  verify e = e.hash == compute_hash e
