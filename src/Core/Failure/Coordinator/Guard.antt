-- ===== src/Core/Failure/Coordinator/Guard.antt =====
-- What the recovery at startup leaves behind.
use project_whitequbit.Base.{
  ℕ, ◌+◌, ◌/◌, ◌<◌, ◌≡◌, String, Bool, true, false, [], ◌∷◌, ◌++◌, length, ltb, ◌||◌, Result, ok,
  u64,
}
use project_whitequbit.Core.Failure.{
  FailureError, KillSwitch, KillSwitchState, StateFile, holding, missing, garbled, read_actions,
}
use project_whitequbit.Core.Failure.Values.{Scalars}
use project_whitequbit.Core.Failure.Records.{FailureCategory, FailureSeverity, new_record}
use project_whitequbit.Core.Failure.Coordinator.{
  RecoveryCoordinator, StartupRecoveryResult, should_block_actions,
}

abbrev pub IsReadable : StateFile → Type 0
IsReadable missing = Unit
IsReadable garbled = true ≡ false
IsReadable (holding s) = Unit

abbrev switch : Bool → KillSwitchState → StateFile → Bool → KillSwitch
switch flag state file healthy = record {
  flag = flag;
  state = state;
  file = file;
  healthy = healthy;
}

-- The kill switch is loaded: whether it was active, and then it is again.
abbrev IsLoaded : Bool → KillSwitch × Result FailureError Bool → Type 0
IsLoaded healthy (k, answer) =
    (was_active : Bool) × (answer ≡ ok was_active)
    × (was_active ≡ true → k.flag ≡ true)
    × (k.healthy ≡ healthy)

module _ {D : Type 0} {scalars : Scalars} where
  -- The coordinator after a failure was noted.
  abbrev noted :
      FailureCategory
      → FailureSeverity
      → String
      → String
      → ℕ
      → RecoveryCoordinator D scalars
      → RecoveryCoordinator D scalars
  noted category severity message component now c = record c {
    next_failure_id = u64 (c.next_failure_id + 1);
    failure_log =
        c.failure_log ++ new_record c.next_failure_id category severity message component now ∷ [];
  }

  -- The answer of the last step, and what it guards.
  abbrev Guards :
      StartupRecoveryResult
      → RecoveryCoordinator D scalars
      → RecoveryCoordinator D scalars × Result FailureError StartupRecoveryResult
      → Type 0
  Guards r c (c', answer) =
      ((activated : Bool) × (answer ≡ ok (record r { kill_switch_activated = activated })))
      × (r.in_flight_count / 2 < r.actions_failed → should_block_actions c' ≡ true)
      × (should_block_actions c ≡ true → should_block_actions c' ≡ true)

  -- The result of a recovery that went through, against the coordinator before and after it.
  abbrev pub Accounts :
      RecoveryCoordinator D scalars → StartupRecoveryResult → RecoveryCoordinator D scalars → Type 0
  Accounts c found c' =
      (found.actions_recovered + found.actions_failed ≡ found.in_flight_count)
      × (found.in_flight_count ≡ length (read_actions c.in_flight.lines))
      × (found.in_flight_count / 2 < found.actions_failed → should_block_actions c' ≡ true)
      × (found.kill_switch_was_active ≡ true → should_block_actions c' ≡ true)
      × (found.requires_intervention ≡ (found.kill_switch_was_active || ltb 0 found.actions_failed))
      × (found.config_errors ≡ [])
