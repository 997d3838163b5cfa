-- ===== src/Tests/Startup.antt =====
-- core/shutdown.rs and the recovery at startup of core/failure.rs on concrete inputs.
use project_whitequbit.Base.{ℕ, refl, String, true, false, none, some, List, [], ◌∷◌}
use project_whitequbit.Core.Shutdown.{new_coordinator, initiate_shutdown, begin_draining}
use project_whitequbit.Core.Shutdown.Lasting.{
  Call, initiate, request, drain, finish, calls, Lasts, shutdown-Lasts,
}
use project_whitequbit.Core.Failure.{
  default_state, missing as no_file, tracked, InFlightAction, rolling_back, executing, ActionPhase,
}
use project_whitequbit.Core.Failure.Values.{Scalars, string, table, entry, empty}
use project_whitequbit.Core.Failure.Config.{missing, parsed}
use project_whitequbit.Core.Failure.Coordinator.{RecoveryCoordinator}

abbrev before : List Call
before = drain ∷ initiate ∷ drain ∷ []

abbrev after : List Call
after = request ∷ initiate ∷ finish ∷ []

shutdown-Lasts_example :
    Lasts (calls before new_coordinator) (calls after (calls before new_coordinator))
unfolding initiate_shutdown begin_draining new_coordinator
shutdown-Lasts_example = shutdown-Lasts before after refl

abbrev scalars : Scalars
scalars = record {
  Integer = ℕ;
  Float = ℕ;
  Datetime = String;
  Number = ℕ;
  from_integer = λ n. n;
  from_f64 = λ n. some n;
  to_text = λ s. s;
}

abbrev in_phase : String → ActionPhase → InFlightAction ℕ
in_phase id phase = record {
  action_id = id;
  action_type = "firewall";
  started_at = 1;
  phase = phase;
  pre_state = some 3;
  post_state = none;
  compensation_data = none;
}

abbrev coordinator : RecoveryCoordinator ℕ scalars
coordinator = record {
  kill_switch = record { flag = false; state = default_state; file = no_file; healthy = true };
  in_flight = record {
    actions = [];
    lines =
        tracked (in_phase "a" rolling_back)
        ∷ tracked (in_phase "b" executing)
        ∷ tracked (in_phase "c" rolling_back)
        ∷ [];
    healthy = true;
    readable = true;
  };
  config_validator = record {
    primary = missing;
    fallback = parsed (
        table (
          entry "wal_path" (string "w")
            (entry "audit_path" (string "a") (entry "socket_path" (string "s") empty))));
  };
  failure_log = [];
  log_healthy = true;
  next_failure_id = 1;
}
