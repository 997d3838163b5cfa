-- ===== src/Tests/Core.antt =====
-- core/ on concrete inputs.
use project_whitequbit.Base.Map
use project_whitequbit.Core.CircuitBreaker.{CircuitBreaker, closed, opened}
use project_whitequbit.Core.CircuitBreaker.Thresholds.{failures, failures_open}
use project_whitequbit.Core.Failure.{
  KillSwitch, missing, default_state, InFlightAction, InFlightTracker, executing, failed, load,
  read_actions, insert_actions, recover_action,
}
use project_whitequbit.Core.Failure.Persistence.{
  registering, phasing, perform_all, IsRestored, perform_all-IsRestored,
}
use project_whitequbit.Core.Failure.Startup.{recover_action_settles}
use project_whitequbit.Base.{
  ℕ, ◌≡◌, ◌≤◌, refl, true, false, none, some, List, [], ◌∷◌, arith, text_key,
}
use project_whitequbit.Core.StateMachine.{init, ready, recovering, state_code, current}
use project_whitequbit.Core.StateMachine.Lifetime.{
  machine_at, Call, request as ask, shut, calls, calls_ascend,
}

abbrev agent_calls : List Call
agent_calls = ask recovering ∷ ask ready ∷ ask init ∷ shut ∷ []

calls_ascend_example : state_code init ≤ state_code (current (calls agent_calls (machine_at init)))
calls_ascend_example = calls_ascend agent_calls init

abbrev breaker : CircuitBreaker
breaker = record {
  state = closed;
  failure_count = 0;
  success_count = 0;
  failure_threshold = 3;
  success_threshold = 2;
  reset_timeout = 100;
  opened_at = none;
}

failures_open_example : (failures (1 ∷ 2 ∷ 3 ∷ []) breaker).state ≡ opened
failures_open_example = failures_open (1 ∷ 2 ∷ 3 ∷ []) breaker refl refl (omega arith) (omega arith)

abbrev kill_switch : KillSwitch
kill_switch = record { flag = false; state = default_state; file = missing; healthy = true }

abbrev tracker : InFlightTracker ℕ
tracker = record { actions = []; lines = []; healthy = true; readable = true }

perform_all-IsRestored_example : IsRestored (
    perform_all
      (registering "a" "firewall" 1 ∷ phasing "a" executing ∷ registering "b" "ssh" 2 ∷ [])
      tracker)
perform_all-IsRestored_example =
    perform_all-IsRestored
      (registering "a" "firewall" 1 ∷ phasing "a" executing ∷ registering "b" "ssh" 2 ∷ []) tracker
      refl refl tt tt (λ id. unfold load read_actions insert_actions in refl)

abbrev interrupted : InFlightAction ℕ
interrupted = record {
  action_id = "a";
  action_type = "firewall";
  started_at = 1;
  phase = executing;
  pre_state = none;
  post_state = none;
  compensation_data = none;
}

abbrev busy_tracker : InFlightTracker ℕ
busy_tracker = record {
  actions = ("a", interrupted) ∷ [];
  lines = [];
  healthy = true;
  readable = true;
}

recover_action_settles_example :
    Map.get "a" (recover_action interrupted busy_tracker).0.actions
    ≡ some (record interrupted { phase = failed })
unfolding Map.get
recover_action_settles_example = (recover_action_settles interrupted busy_tracker refl refl).1 "a"
