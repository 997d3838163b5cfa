-- ===== src/Audit/Logger.antt =====
-- audit/logger.rs: the logger, which chains each entry to the last one by its hash. Each operation
-- takes the time `now` of its entry. Values that are only shown are given as their text: the kind of an
-- event, the path of the configuration, the version of the package. An event's client is its principal.
pub mod Growth
pub mod Race
use project_whitequbit.Base.{ℕ, ◌+◌, u64, String, Bool, Option, none, some, List, Result, ok, err}
use project_whitequbit.Base.Hash.{Hashing}
use project_whitequbit.Audit.Entry.{
  Json, boolean, number, text, object, Fields, end, field, AuditEventType, action_prepared,
  action_committed, action_rejected, action_rolled_back, agent_shutdown, agent_startup,
  authentication_failure, authentication_success, authorization_denied, config_reloaded,
  event_received, event_rejected, integrity_check_failed, integrity_check_passed, privilege_dropped,
  recovery_completed, recovery_started, rollback_failed, sandbox_applied, AuditEntry, AuditError,
  new_entry, with_actor, with_details,
}
use project_whitequbit.Audit.Sink.{Line, FileSink, write, get_chain_state}

-- The sink, and the `LoggerState`.
pub record AuditLogger : Type 0 where
  pub sink : FileSink
  pub next_sequence : ℕ
  pub last_hash : String

abbrev pub Outcome : Type 0
Outcome = AuditLogger × Result AuditError (Unit {0})

unfoldable pub open_logger : FileSink → Result AuditError AuditLogger
open_logger sink = elim (get_chain_state sink) [
  | err e ↦ err e
  | ok (next_sequence, last_hash) ↦
      ok (record { sink = sink; next_sequence = next_sequence; last_hash = last_hash })
]

-- Writing an entry, and moving on to the next one when it is written.
unfoldable pub write_next : AuditEntry → AuditLogger → Outcome
write_next entry l =
    let (sink, r) = write entry l.sink in
    elim r [
      | err e ↦ (record l { sink = sink }, err e)
      | ok _ ↦ (
        record { sink = sink; next_sequence = u64 (l.next_sequence + 1); last_hash = entry.hash },
        ok tt,
      )
    ]

-- `map(|c| c.principal.clone()).unwrap_or_else(|| "unknown".to_string())`
abbrev principal : Option String → String
principal none = "unknown"
principal (some name) = name

module _ (hashing : Hashing Json) (now : ℕ) where
  unfoldable pub append : AuditEventType → AuditLogger → Outcome
  append event_type l = write_next (new_entry hashing l.next_sequence event_type l.last_hash now) l

  unfoldable pub append_with_details : AuditEventType → Json → AuditLogger → Outcome
  append_with_details event_type details l =
      write_next
        (with_details hashing details
          (new_entry hashing l.next_sequence event_type l.last_hash now))
        l

  unfoldable pub log_startup : String → String → AuditLogger → Outcome
  log_startup version config_path =
      append_with_details agent_startup
        (object (field "version" (text version) (field "config_path" (text config_path) end)))

  unfoldable pub log_shutdown : String → AuditLogger → Outcome
  log_shutdown reason =
      append_with_details agent_shutdown (object (field "reason" (text reason) end))

  unfoldable pub log_config_reload : Bool → AuditLogger → Outcome
  log_config_reload success =
      append_with_details config_reloaded (object (field "success" (boolean success) end))

  unfoldable pub log_event_received : String → Option String → AuditLogger → Outcome
  log_event_received kind source =
      append_with_details event_received
        (object (field "event_type" (text kind) (field "source" (text (principal source)) end)))

  unfoldable pub log_event_rejected : String → Option String → String → AuditLogger → Outcome
  log_event_rejected kind source reason = append_with_details event_rejected (
      object (
        field "event_type" (text kind)
          (field "source" (text (principal source)) (field "reason" (text reason) end))))

  unfoldable pub log_action_committed : String → Bool → String → AuditLogger → Outcome
  log_action_committed action_id changed message = append_with_details action_committed (
      object (
        field "action_id" (text action_id)
          (field "success" (boolean changed) (field "message" (text message) end))))

  unfoldable pub log_action_rolled_back : String → String → AuditLogger → Outcome
  log_action_rolled_back action_id reason =
      append_with_details action_rolled_back
        (object (field "action_id" (text action_id) (field "reason" (text reason) end)))

  unfoldable pub log_action_rejected : String → String → AuditLogger → Outcome
  log_action_rejected action_type reason =
      append_with_details action_rejected
        (object (field "action_type" (text action_type) (field "reason" (text reason) end)))

  unfoldable pub log_rollback_failed : String → String → AuditLogger → Outcome
  log_rollback_failed action_id error =
      append_with_details rollback_failed
        (object (field "action_id" (text action_id) (field "error" (text error) end)))

  unfoldable pub log_auth_success : String → String → AuditLogger → Outcome
  log_auth_success principal_name method =
      append_with_details authentication_success
        (object (field "principal" (text principal_name) (field "method" (text method) end)))

  unfoldable pub log_auth_failure : String → String → AuditLogger → Outcome
  log_auth_failure principal_name reason =
      append_with_details authentication_failure
        (object (field "principal" (text principal_name) (field "reason" (text reason) end)))

  unfoldable pub log_authz_denied : String → String → String → AuditLogger → Outcome
  log_authz_denied principal_name action resource = append_with_details authorization_denied (
      object (
        field "principal" (text principal_name)
          (field "action" (text action) (field "resource" (text resource) end))))

  unfoldable pub log_privilege_dropped : ℕ → ℕ → AuditLogger → Outcome
  log_privilege_dropped from_uid to_uid =
      append_with_details privilege_dropped
        (object (field "from_uid" (number from_uid) (field "to_uid" (number to_uid) end)))

  unfoldable pub log_sandbox_applied : String → AuditLogger → Outcome
  log_sandbox_applied sandbox_type =
      append_with_details sandbox_applied (object (field "sandbox_type" (text sandbox_type) end))

  unfoldable pub log_recovery_started : ℕ → AuditLogger → Outcome
  log_recovery_started uncommitted_count =
      append_with_details recovery_started
        (object (field "uncommitted_entries" (number uncommitted_count) end))

  unfoldable pub log_recovery_completed : ℕ → ℕ → AuditLogger → Outcome
  log_recovery_completed recovered failed =
      append_with_details recovery_completed
        (object (field "recovered" (number recovered) (field "failed" (number failed) end)))

  unfoldable pub log_integrity_passed : ℕ → AuditLogger → Outcome
  log_integrity_passed entries_checked =
      append_with_details integrity_check_passed
        (object (field "entries_checked" (number entries_checked) end))

  unfoldable pub log_integrity_failed : ℕ → String → AuditLogger → Outcome
  log_integrity_failed entry reason =
      append_with_details integrity_check_failed
        (object (field "failed_entry" (number entry) (field "reason" (text reason) end)))

  abbrev pub named : Option String → AuditEntry → AuditEntry
  named none e = e
  named (some actor) e = with_actor hashing actor e

  -- The entry of `log_action_prepared`, built while the state is only read; its lock is given back
  -- before the write.
  unfoldable pub prepared_entry : String → String → Option String → AuditLogger → AuditEntry
  prepared_entry action_id action_type actor l = named actor (
      with_details hashing
        (object (field "action_id" (text action_id) (field "action_type" (text action_type) end)))
        (new_entry hashing l.next_sequence action_prepared l.last_hash now))

  -- `log_action_prepared` with no other call between its reading and its writing.
  unfoldable pub log_action_prepared : String → String → Option String → AuditLogger → Outcome
  log_action_prepared action_id action_type actor l =
      write_next (prepared_entry action_id action_type actor l) l
