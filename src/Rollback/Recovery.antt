-- ===== src/Rollback/Recovery.antt =====
-- rollback/recovery.rs: rolling back, after a crash, the actions that were prepared and never finished.
-- `detail` is the text of a failure for an identifier and an error, `no_handler` that of the
-- compensator.
pub mod Completeness
pub mod Accounting
use project_whitequbit.Base.{
  ℕ, ◌+◌, String, Bool, true, false, Option, none, some, List, [], ◌∷◌, ◌++◌, length, is_empty, not,
  ltb, nat_eqb, if◌then◌else◌, Result, ok, err,
}
use project_whitequbit.Base.Hash.{Hashing}
use project_whitequbit.Rollback.Journal.{
  Journal, Line, open_journal, get_uncommitted, mark_rolled_back, mark_rollback_failed,
}
use project_whitequbit.Rollback.Compensator.{CompensationResult, Compensator, compensate_all}

pub record RecoveryResult : Type 0 where
  pub entries_recovered : ℕ
  pub entries_failed : ℕ
  pub requires_intervention : Bool
  pub failed_details : List String

unfoldable pub success : ℕ → RecoveryResult
success entries_recovered = record {
  entries_recovered = entries_recovered;
  entries_failed = 0;
  requires_intervention = false;
  failed_details = [];
}

unfoldable pub partial : ℕ → ℕ → List String → RecoveryResult
partial entries_recovered entries_failed failed_details = record {
  entries_recovered = entries_recovered;
  entries_failed = entries_failed;
  requires_intervention = ltb 0 entries_failed;
  failed_details = failed_details;
}

unfoldable pub is_complete : RecoveryResult → Bool
is_complete r = nat_eqb r.entries_failed 0

abbrev pub unwrap_or : Option String → String → String
unwrap_or none s = s
unwrap_or (some t) s = t

module _ {D : Type 0} where
  unfoldable pub needs_recovery : Journal D → Bool
  needs_recovery j = not (is_empty (get_uncommitted j))

  unfoldable pub uncommitted_count : Journal D → ℕ
  uncommitted_count j = length (get_uncommitted j)

module _ {D : Type 0} (hashing : Hashing D) where
  -- The loop over the results, with the number recovered and the details of the failures. A mark that
  -- fails is logged and passed over. `now` is the time of the marks.
  unfoldable pub process_results :
      (ℕ → String → String)
      → ℕ
      → List CompensationResult
      → Journal D × ℕ × List String
      → Journal D × ℕ × List String
  process_results detail now [] s = s
  process_results detail now (r ∷ rs) (j, recovered, failed_details) = elim r.success [
    | true ↦
        process_results detail now rs
          ((mark_rolled_back hashing r.entry_id now j).0, recovered + 1, failed_details)
    | false ↦ process_results detail now rs (
      (mark_rollback_failed hashing r.entry_id now j).0,
      recovered,
      failed_details ++ detail r.entry_id (unwrap_or r.error "Unknown error") ∷ [],
    )
  ]

  unfoldable pub recover :
      {W : Type 0}
      → (ℕ → String → String)
      → (String → String)
      → Compensator W D
      → ℕ
      → Journal D × W
      → (Journal D × W) × RecoveryResult
  unfolding process_results
  recover detail no_handler c now (j, w) =
      let uncommitted = get_uncommitted j in
      let (w', results) = compensate_all no_handler c uncommitted w in
      let (j', recovered, failed_details) = process_results detail now results (j, 0, []) in
      if is_empty uncommitted
      then ((j, w), success 0)
      else if ltb 0 (length failed_details)
      then ((j', w'), partial recovered (length failed_details) failed_details)
      else ((j', w'), success recovered)
