-- ===== src/Audit/Immutable/Calls.antt =====
-- audit/immutable.rs: the calls for common events, and the queries. The version and the number of the
-- process are arguments.
use project_whitequbit.Base.{
  ℕ, zero, suc, ◌-◌, ◌+◌, ◌%◌, u64_mod, String, Bool, Option, none, some, List, [], ◌∷◌, Result,
  length, if◌then◌else◌,
}
use project_whitequbit.Base.Hash.{Hashing}
use project_whitequbit.Audit.Entry.{Json, text, number}
use project_whitequbit.Audit.Immutable.Entry.{
  ImmutableAuditEntry, lifecycle, security_action, authentication, AuditSeverity, info, notice,
  warning, error, AuditOutcome, success, pending, failure, denied, rolled_back, AuditActor,
  AuditTarget, StateSnapshot,
}
use project_whitequbit.Audit.Immutable.Builder.{
  AuditEntryBuilder, new_builder, set_category, set_severity, set_actor, set_target, set_outcome,
  before_state, after_state, add_metadata,
}
use project_whitequbit.Audit.Immutable.Verify.{
  ImmutableAuditError, VerificationResult, verify_chain,
}
use project_whitequbit.Audit.Immutable.Wal.{Encoding}
use project_whitequbit.Audit.Immutable.Log.{ImmutableAuditLogger, Writing, Outcome, append}

unfoldable pub startup_entry : String → ℕ → AuditEntryBuilder
startup_entry version pid = add_metadata "pid" (number pid) (
    add_metadata "version" (text version)
      (set_severity notice (set_category lifecycle (new_builder "agent_startup"))))

unfoldable pub shutdown_entry : String → AuditEntryBuilder
shutdown_entry reason =
    add_metadata "reason" (text reason)
      (set_severity notice (set_category lifecycle (new_builder "agent_shutdown")))

unfoldable pub severity_of : AuditOutcome → AuditSeverity
severity_of success = notice
severity_of (failure reason) = error
severity_of (denied policy) = warning
severity_of (rolled_back reason) = warning
severity_of pending = info

abbrev with_before : Option StateSnapshot → AuditEntryBuilder → AuditEntryBuilder
with_before none b = b
with_before (some s) b = before_state s b

abbrev with_after : Option StateSnapshot → AuditEntryBuilder → AuditEntryBuilder
with_after none b = b
with_after (some s) b = after_state s b

unfoldable pub security_entry :
    String
    → AuditActor
    → AuditTarget
    → Option StateSnapshot
    → Option StateSnapshot
    → AuditOutcome
    → AuditEntryBuilder
security_entry event_type actor target before after outcome = with_after after (
    with_before before (
      set_outcome outcome (
        set_target target (
          set_actor actor (
            set_severity (severity_of outcome)
              (set_category security_action (new_builder event_type)))))))

abbrev unwrap_or : Option String → String → String
unwrap_or none s = s
unwrap_or (some t) s = t

unfoldable pub auth_entry : AuditActor → Bool → Option String → AuditEntryBuilder
auth_entry actor accepted reason =
    set_outcome (if accepted then success else failure (unwrap_or reason "Unknown")) (
      set_actor actor (
        set_severity (if accepted then info else warning) (
          set_category authentication
            (new_builder (if accepted then "auth_success" else "auth_failure")))))

module _ (hashing : Hashing Json) (quoted_bytes : String → List ℕ) (encoding : Encoding) where
  unfoldable pub log_startup :
      String → ℕ → Writing → Writing → ImmutableAuditLogger → Outcome ImmutableAuditEntry
  log_startup version pid = append hashing quoted_bytes encoding (startup_entry version pid)

  unfoldable pub log_shutdown :
      String → Writing → Writing → ImmutableAuditLogger → Outcome ImmutableAuditEntry
  log_shutdown reason = append hashing quoted_bytes encoding (shutdown_entry reason)

  unfoldable pub log_security_action :
      String
      → AuditActor
      → AuditTarget
      → Option StateSnapshot
      → Option StateSnapshot
      → AuditOutcome
      → Writing
      → Writing
      → ImmutableAuditLogger
      → Outcome ImmutableAuditEntry
  log_security_action event_type actor target before after outcome =
      append hashing quoted_bytes encoding
        (security_entry event_type actor target before after outcome)

  unfoldable pub log_auth :
      AuditActor
      → Bool
      → Option String
      → Writing
      → Writing
      → ImmutableAuditLogger
      → Outcome ImmutableAuditEntry
  log_auth actor accepted reason =
      append hashing quoted_bytes encoding (auth_entry actor accepted reason)

  unfoldable pub verify : ImmutableAuditLogger → Result ImmutableAuditError VerificationResult
  verify l = verify_chain hashing quoted_bytes l.lines

unfoldable pub current_sequence : ImmutableAuditLogger → ℕ
current_sequence l = (l.state.next_sequence + u64_mod - 1) % u64_mod

abbrev drop : ℕ → List ImmutableAuditEntry → List ImmutableAuditEntry
drop n [] = []
drop n (e ∷ es) = let rest = drop (n - 1) es in elim n [ zero ↦ e ∷ es | suc k ↦ rest ]

-- The last entries of the cache, as many as asked for.
unfoldable pub recent_entries : ℕ → ImmutableAuditLogger → List ImmutableAuditEntry
recent_entries count l = drop (length l.state.recent_entries - count) l.state.recent_entries
