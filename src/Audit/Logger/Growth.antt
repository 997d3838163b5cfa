-- ===== src/Audit/Logger/Growth.antt =====
-- What the log file holds after any calls of the logger.
use project_whitequbit.Base.{
  ℕ, ◌+◌, ◌≡◌, refl, ap, ◌∙◌, u64, String, Bool, true, false, ◌⊎◌, Option, none, some, List, [],
  ◌∷◌, ◌++◌, ok, arith, Bool-cases, inl, inr,
}
use project_whitequbit.Base.Hash.{Hashing}
use project_whitequbit.Audit.Entry.{
  Json, AuditEventType, AuditEntry, compute_hash, new_entry, with_actor, with_details,
}
use project_whitequbit.Audit.Sink.{Line, blank, garbled, written, write, get_chain_state}
use project_whitequbit.Audit.Integrity.{pass, verify_file}
use project_whitequbit.Audit.Integrity.Chain.{
  Intact, Intact-append, end_of, entries, verify_file-Intact, find_gaps-Intact,
}
use project_whitequbit.Audit.Logger.{
  AuditLogger, Outcome, open_logger, write_next, append_with_details, prepared_entry, log_startup,
  log_shutdown, log_config_reload, log_event_received, log_event_rejected, log_action_committed,
  log_action_rolled_back, log_action_rejected, log_rollback_failed, log_auth_success,
  log_auth_failure, log_authz_denied, log_privilege_dropped, log_sandbox_applied,
  log_recovery_started, log_recovery_completed, log_integrity_passed, log_integrity_failed,
  log_action_prepared,
}

-- A call of the logger.
pub data LogCall : Type 0 where
  call_startup : String → String → LogCall
  call_shutdown : String → LogCall
  call_config_reload : Bool → LogCall
  call_event_received : String → Option String → LogCall
  call_event_rejected : String → Option String → String → LogCall
  call_action_committed : String → Bool → String → LogCall
  call_action_rolled_back : String → String → LogCall
  call_action_rejected : String → String → LogCall
  call_rollback_failed : String → String → LogCall
  call_auth_success : String → String → LogCall
  call_auth_failure : String → String → LogCall
  call_authz_denied : String → String → String → LogCall
  call_privilege_dropped : ℕ → ℕ → LogCall
  call_sandbox_applied : String → LogCall
  call_recovery_started : ℕ → LogCall
  call_recovery_completed : ℕ → ℕ → LogCall
  call_integrity_passed : ℕ → LogCall
  call_integrity_failed : ℕ → String → LogCall
  call_action_prepared : String → String → Option String → LogCall

module _ (hashing : Hashing Json) where
  abbrev pub run : LogCall → ℕ → AuditLogger → Outcome
  run (call_startup version config_path) now = log_startup hashing now version config_path
  run (call_shutdown reason) now = log_shutdown hashing now reason
  run (call_config_reload success) now = log_config_reload hashing now success
  run (call_event_received kind source) now = log_event_received hashing now kind source
  run (call_event_rejected kind source reason) now =
      log_event_rejected hashing now kind source reason
  run (call_action_committed action_id changed message) now =
      log_action_committed hashing now action_id changed message
  run (call_action_rolled_back action_id reason) now =
      log_action_rolled_back hashing now action_id reason
  run (call_action_rejected action_type reason) now =
      log_action_rejected hashing now action_type reason
  run (call_rollback_failed action_id error) now = log_rollback_failed hashing now action_id error
  run (call_auth_success principal_name method) now =
      log_auth_success hashing now principal_name method
  run (call_auth_failure principal_name reason) now =
      log_auth_failure hashing now principal_name reason
  run (call_authz_denied principal_name action resource) now =
      log_authz_denied hashing now principal_name action resource
  run (call_privilege_dropped from_uid to_uid) now =
      log_privilege_dropped hashing now from_uid to_uid
  run (call_sandbox_applied sandbox_type) now = log_sandbox_applied hashing now sandbox_type
  run (call_recovery_started uncommitted_count) now =
      log_recovery_started hashing now uncommitted_count
  run (call_recovery_completed recovered failed) now =
      log_recovery_completed hashing now recovered failed
  run (call_integrity_passed entries_checked) now = log_integrity_passed hashing now entries_checked
  run (call_integrity_failed entry reason) now = log_integrity_failed hashing now entry reason
  run (call_action_prepared action_id action_type actor) now =
      log_action_prepared hashing now action_id action_type actor

  -- The logger on a file system that takes whole writes, or takes nothing.
  abbrev pub on_disk : Bool → AuditLogger → AuditLogger
  on_disk healthy l = record l { sink = record l.sink { healthy = healthy; leaves_line = false } }

  -- Calls one after the other, each with its time and whether the file system takes its write.
  abbrev pub runs : List (LogCall × (ℕ × Bool)) → AuditLogger → AuditLogger
  runs [] l = l
  runs ((c, (now, healthy)) ∷ cs) l = runs cs (run c now (on_disk healthy l)).0

  -- The file is intact, and the logger's state is what follows its last entry.
  abbrev pub IsChained : AuditLogger → Type 0
  IsChained l =
      Intact hashing l.sink.lines 1 "" × (end_of l.sink.lines 1 "" ≡ (l.next_sequence, l.last_hash))

  pub end_of-append :
      (xs : List Line) (e : AuditEntry) (n : ℕ) (h : String)
      → end_of (xs ++ written e ∷ []) n h ≡ (u64 ((end_of xs n h).0 + 1), e.hash)
  end_of-append [] e n h = refl
  end_of-append (blank ∷ xs) e n h = end_of-append xs e n h
  end_of-append (garbled ∷ xs) e n h = end_of-append xs e n h
  end_of-append (written x ∷ xs) e n h = end_of-append xs e (u64 (n + 1)) x.hash

  -- An entry that follows the logger's state, with a right hash.
  -- A write succeeds, or leaves nothing.
  abbrev pub IsWhole : AuditLogger → Type 0
  IsWhole l = (l.sink.healthy ≡ true) ⊎ (l.sink.leaves_line ≡ false)

  abbrev IsNext : AuditLogger → AuditEntry → Type 0
  IsNext l e =
      (e.sequence ≡ l.next_sequence)
      × (e.previous_hash ≡ l.last_hash)
      × (e.hash ≡ compute_hash hashing e)

  pub write_next-IsChained :
      (e : AuditEntry) (l : AuditLogger)
      → IsNext l e
      → IsWhole l
      → IsChained l
      → IsChained (write_next e l).0
  unfolding write_next write
  write_next-IsChained e l next whole (i, q) = elim (Bool-cases l.sink.healthy) [
    | inr ill ↦ elim whole [
      | inl well ↦ absurd (ground (arith, ill, well))
      | inr early ↦ rw (ill, early) (i, q)
    ]
    | inl well ↦ rw well (
      Intact-append hashing l.sink.lines (written e ∷ []) 1 "" i
          (rw q (next.0, next.1, next.2, tt)),
      end_of-append l.sink.lines e 1 "" ∙ ap (λ s. (u64 (s.0 + 1), e.hash)) q,
    )
  ]

  pub details-IsChained :
      (now : ℕ) (event_type : AuditEventType) (details : Json) (l : AuditLogger)
      → IsWhole l
      → IsChained l
      → IsChained (append_with_details hashing now event_type details l).0
  unfolding append_with_details new_entry with_details compute_hash
  details-IsChained now event_type details l whole c =
      write_next-IsChained
        (with_details hashing details
          (new_entry hashing l.next_sequence event_type l.last_hash now))
        l (refl, refl, refl) whole c

  pub prepared-IsNext :
      (now : ℕ) (action_id action_type : String) (actor : Option String) (l : AuditLogger)
      → IsNext l (prepared_entry hashing now action_id action_type actor l)
  unfolding prepared_entry new_entry with_details with_actor compute_hash
  prepared-IsNext now action_id action_type none l = (refl, refl, refl)
  prepared-IsNext now action_id action_type (some actor) l = (refl, refl, refl)

  run-IsChained :
      (c : LogCall) (now : ℕ) (l : AuditLogger)
      → IsWhole l
      → IsChained l
      → IsChained (run c now l).0
  unfolding log_startup log_shutdown log_config_reload log_event_received log_event_rejected
      log_action_committed log_action_rolled_back log_action_rejected log_rollback_failed
      log_auth_success log_auth_failure log_authz_denied log_privilege_dropped log_sandbox_applied
      log_recovery_started log_recovery_completed log_integrity_passed log_integrity_failed
      log_action_prepared
  run-IsChained (call_startup version config_path) now l whole h =
      details-IsChained now _ _ l whole h
  run-IsChained (call_shutdown reason) now l whole h = details-IsChained now _ _ l whole h
  run-IsChained (call_config_reload success) now l whole h = details-IsChained now _ _ l whole h
  run-IsChained (call_event_received kind source) now l whole h =
      details-IsChained now _ _ l whole h
  run-IsChained (call_event_rejected kind source reason) now l whole h =
      details-IsChained now _ _ l whole h
  run-IsChained (call_action_committed action_id changed message) now l whole h =
      details-IsChained now _ _ l whole h
  run-IsChained (call_action_rolled_back action_id reason) now l whole h =
      details-IsChained now _ _ l whole h
  run-IsChained (call_action_rejected action_type reason) now l whole h =
      details-IsChained now _ _ l whole h
  run-IsChained (call_rollback_failed action_id error) now l whole h =
      details-IsChained now _ _ l whole h
  run-IsChained (call_auth_success principal_name method) now l whole h =
      details-IsChained now _ _ l whole h
  run-IsChained (call_auth_failure principal_name reason) now l whole h =
      details-IsChained now _ _ l whole h
  run-IsChained (call_authz_denied principal_name action resource) now l whole h =
      details-IsChained now _ _ l whole h
  run-IsChained (call_privilege_dropped from_uid to_uid) now l whole h =
      details-IsChained now _ _ l whole h
  run-IsChained (call_sandbox_applied sandbox_type) now l whole h =
      details-IsChained now _ _ l whole h
  run-IsChained (call_recovery_started uncommitted_count) now l whole h =
      details-IsChained now _ _ l whole h
  run-IsChained (call_recovery_completed recovered failed) now l whole h =
      details-IsChained now _ _ l whole h
  run-IsChained (call_integrity_passed entries_checked) now l whole h =
      details-IsChained now _ _ l whole h
  run-IsChained (call_integrity_failed entry reason) now l whole h =
      details-IsChained now _ _ l whole h
  run-IsChained (call_action_prepared action_id action_type actor) now l whole h =
      write_next-IsChained (prepared_entry hashing now action_id action_type actor l) l
        (prepared-IsNext now action_id action_type actor l) whole h

  pub runs-IsChained :
      (cs : List (LogCall × (ℕ × Bool))) (l : AuditLogger) → IsChained l → IsChained (runs cs l)
  runs-IsChained [] l h = h
  runs-IsChained ((c, (now, healthy)) ∷ cs) l h =
      runs-IsChained cs (run c now (on_disk healthy l)).0
        (run-IsChained c now (on_disk healthy l) (inr refl) h)

  -- From a logger whose file is intact and whose state follows it, any calls one after the other, of
  -- which any may write nothing and fail, leave a file that passes verification with all its entries counted;
  -- and a logger opened on that file is the logger itself.
  pub runs_verify :
      (cs : List (LogCall × (ℕ × Bool))) (l : AuditLogger)
      → IsChained l
      → let l' = runs cs l in
        (verify_file hashing l'.sink.lines ≡ ok (pass (u64 (entries l'.sink.lines))))
        × (open_logger l'.sink ≡ ok l')
  unfolding open_logger
  runs_verify cs l h =
      let l' = runs cs l in
      let (i, q) = runs-IsChained cs l h in
      let state : get_chain_state l'.sink ≡ ok (l'.next_sequence, l'.last_hash) =
        (find_gaps-Intact hashing l'.sink i).1 ∙ ap ok q in
      ((verify_file-Intact hashing l'.sink.lines).0 i, rw (state, open_logger) refl)
