-- ===== src/Core/Failure/Coordinator.antt =====
-- core/failure.rs: the coordinator of the recovery at startup. `D` is the type of JSON values of an action.
pub mod Guard
use project_whitequbit.Base.{
  ℕ, ◌+◌, ◌/◌, u64, String, Bool, true, false, Option, none, some, List, [], ◌∷◌, ◌++◌, length,
  is_empty, ltb, not, ◌&&◌, ◌||◌, if◌then◌else◌, Result, ok, err,
}
use project_whitequbit.Core.Failure.{
  FailureError, io, KillSwitch, load_state, is_active, activate, InFlightAction, InFlightTracker,
  load, recover_each,
}
use project_whitequbit.Core.Failure.Values.{Scalars}
use project_whitequbit.Core.Failure.Config.{
  Complaint, ConfigFile, ConfigValidator, ConfigValidationResult, load_with_fallback,
}
use project_whitequbit.Core.Failure.Records.{
  FailureCategory, crash, FailureSeverity, warning, error, critical, fatal, FailureRecord,
  new_record,
}

-- `failure_log` holds the lines of the log of failures, and `log_healthy` says whether it takes more.
pub record RecoveryCoordinator (D : Type 0) (scalars : Scalars) : Type 0 where
  pub kill_switch : KillSwitch
  pub in_flight : InFlightTracker D
  pub config_validator : ConfigValidator (ConfigFile scalars)
  pub failure_log : List FailureRecord
  pub log_healthy : Bool
  pub next_failure_id : ℕ

pub record StartupRecoveryResult : Type 0 where
  pub kill_switch_was_active : Bool
  pub kill_switch_activated : Bool
  pub in_flight_count : ℕ
  pub actions_recovered : ℕ
  pub actions_failed : ℕ
  pub config_valid : Bool
  pub used_fallback_config : Bool
  pub config_errors : List Complaint
  pub requires_intervention : Bool

abbrev is_fatal : FailureSeverity → Bool
is_fatal fatal = true
is_fatal critical = false
is_fatal error = false
is_fatal warning = false

module _ {D : Type 0} {scalars : Scalars} where
  unfoldable pub append_failure_log :
      FailureRecord
      → RecoveryCoordinator D scalars
      → RecoveryCoordinator D scalars × Result FailureError (Unit {0})
  append_failure_log r c =
      if c.log_healthy
      then (record c { failure_log = c.failure_log ++ r ∷ [] }, ok tt)
      else (c, err io)

  abbrev activate_switch :
      String
      → ℕ
      → ℕ
      → RecoveryCoordinator D scalars
      → RecoveryCoordinator D scalars × Result FailureError (Unit {0})
  activate_switch reason failure_id now c =
      let (k, r) = activate reason failure_id now c.kill_switch in (record c { kill_switch = k }, r)

  abbrev with_id :
      ℕ
      → RecoveryCoordinator D scalars × Result FailureError (Unit {0})
      → RecoveryCoordinator D scalars × Result FailureError ℕ
  with_id failure_id (c, err e) = (c, err e)
  with_id failure_id (c, ok _) = (c, ok failure_id)

  -- `record_failure` once the line is appended.
  abbrev after_logging :
      FailureSeverity
      → String
      → ℕ
      → ℕ
      → RecoveryCoordinator D scalars × Result FailureError (Unit {0})
      → RecoveryCoordinator D scalars × Result FailureError ℕ
  after_logging severity message failure_id now (c, err e) = (c, err e)
  after_logging severity message failure_id now (c, ok _) =
      if is_fatal severity && not (is_active c.kill_switch)
      then with_id failure_id (activate_switch message failure_id now c)
      else (c, ok failure_id)

  unfoldable pub record_failure :
      FailureCategory
      → FailureSeverity
      → String
      → String
      → ℕ
      → RecoveryCoordinator D scalars
      → RecoveryCoordinator D scalars × Result FailureError ℕ
  unfolding new_record append_failure_log is_active activate
  record_failure category severity message component now c =
      let failure_id = c.next_failure_id in
      let entry = new_record failure_id category severity message component now in
      after_logging severity message failure_id now
        (append_failure_log entry (record c { next_failure_id = u64 (failure_id + 1) }))

  unfoldable pub should_block_actions : RecoveryCoordinator D scalars → Bool
  unfolding is_active
  should_block_actions c = is_active c.kill_switch

  abbrev concluded :
      StartupRecoveryResult
      → RecoveryCoordinator D scalars × Result FailureError (Unit {0})
      → RecoveryCoordinator D scalars × Result FailureError StartupRecoveryResult
  concluded r (c, err e) = (c, err e)
  concluded r (c, ok _) = (c, ok (record r { kill_switch_activated = true }))

  -- The kill switch is activated when more than half of the actions failed.
  abbrev after_record :
      StartupRecoveryResult
      → ℕ
      → RecoveryCoordinator D scalars × Result FailureError ℕ
      → RecoveryCoordinator D scalars × Result FailureError StartupRecoveryResult
  after_record r now (c, err e) = (c, err e)
  after_record r now (c, ok failure_id) =
      if ltb (r.in_flight_count / 2) r.actions_failed
      then concluded r (activate_switch "Too many actions failed recovery" failure_id now c)
      else (c, ok r)

  -- The last step of `startup_recovery`; `message` is the text for a number of failed actions.
  unfoldable pub judge :
      (ℕ → String)
      → ℕ
      → StartupRecoveryResult
      → RecoveryCoordinator D scalars
      → RecoveryCoordinator D scalars × Result FailureError StartupRecoveryResult
  unfolding record_failure is_active activate
  judge message now r c =
      if ltb 0 r.actions_failed && not (is_active c.kill_switch)
      then after_record r now
          (record_failure crash critical (message r.actions_failed) "recovery_coordinator" now c)
      else (c, ok r)

  -- What `startup_recovery` has found before its last step, from the actions in flight.
  unfoldable pub survey :
      (String → Option String)
      → Bool
      → List (InFlightAction D)
      → RecoveryCoordinator D scalars
      → RecoveryCoordinator D scalars × StartupRecoveryResult
  unfolding recover_each load_with_fallback
  survey absent_parent was_active found c =
      let (tracker, recovered, failures) = recover_each found (c.in_flight, 0, 0) in
      let validation = (load_with_fallback scalars absent_parent c.config_validator).1 in
      (
        record c { in_flight = tracker },
        record {
          kill_switch_was_active = was_active;
          kill_switch_activated = false;
          in_flight_count = length found;
          actions_recovered = recovered;
          actions_failed = failures;
          config_valid = validation.valid;
          used_fallback_config = validation.used_fallback;
          config_errors = validation.errors;
          requires_intervention =
              (was_active || ltb 0 failures) || not (is_empty validation.errors);
        },
      )

  -- `startup_recovery` once the actions in flight are loaded, or could not be.
  abbrev pub after_load :
      (String → Option String)
      → (ℕ → String)
      → ℕ
      → Bool
      → RecoveryCoordinator D scalars
      → InFlightTracker D × Result FailureError (List (InFlightAction D))
      → RecoveryCoordinator D scalars × Result FailureError StartupRecoveryResult
  after_load absent_parent message now was_active c (tracker, err e) =
      (record c { in_flight = tracker }, err e)
  after_load absent_parent message now was_active c (tracker, ok actions) =
      let (c', found) =
        survey absent_parent was_active actions (record c { in_flight = tracker }) in
      judge message now found c'

  -- `startup_recovery` once the state of the kill switch is loaded.
  unfoldable pub recover_in_flight :
      (String → Option String)
      → (ℕ → String)
      → ℕ
      → Bool
      → RecoveryCoordinator D scalars
      → RecoveryCoordinator D scalars × Result FailureError StartupRecoveryResult
  unfolding load judge survey
  recover_in_flight absent_parent message now was_active c =
      after_load absent_parent message now was_active c (load c.in_flight)

  unfoldable pub startup_recovery :
      (String → Option String)
      → (ℕ → String)
      → ℕ
      → RecoveryCoordinator D scalars
      → RecoveryCoordinator D scalars × Result FailureError StartupRecoveryResult
  unfolding load_state recover_in_flight
  startup_recovery absent_parent message now c =
      let (k, r) = load_state c.kill_switch in
      elim r [
        | err e ↦ (record c { kill_switch = k }, err e)
        | ok was_active ↦
            recover_in_flight absent_parent message now was_active (record c { kill_switch = k })
      ]
