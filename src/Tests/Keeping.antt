-- ===== src/Tests/Keeping.antt =====
-- rollback/checkpoint.rs and core/alerting.rs on concrete inputs.
use project_whitequbit.Base.{
  ℕ, ◌≡◌, refl, true, false, none, some, List, [], ◌∷◌, ltb, length, arith, text_key, ◌==◌,
  if◌then◌else◌,
}
use project_whitequbit.Base.Hash.{Hashing}
use project_whitequbit.Rollback.Checkpoint.{
  Checkpoint, CheckpointManager, garbled, new_checkpoint, finalize, add_state, create_checkpoint,
  load_latest,
}
use project_whitequbit.Rollback.Checkpoint.Latest.{made, create_checkpoint-latest}
use project_whitequbit.Core.Failure.{default_state}
use project_whitequbit.Core.Alerting.Alert.{Alert, warning, new_alert}
use project_whitequbit.Core.Alerting.Manager.{
  AlertManager, degraded, default_config_status, new_alert_manager, raise_alert, Situation,
  generate_status,
}
use project_whitequbit.Core.Alerting.Manager.Shown.{raise_alert-shown}

abbrev hashing : Hashing (List ℕ)
hashing = record {
  digest = λ bs. if ltb 20 (length bs) then "long" else "short";
  text_bytes = λ s. if s == "" then [] else 7 ∷ [];
  data_bytes = λ d. d;
  time_bytes = λ n. n ∷ [];
}

abbrev directory : CheckpointManager
directory = record {
  files = (1, garbled) ∷ (2, garbled) ∷ [];
  max_checkpoints = 2;
  next_id = 3;
  healthy = true;
}

abbrev collect : Checkpoint → Checkpoint
collect c = add_state "rules" (4 ∷ 5 ∷ []) c

create_checkpoint-latest_example :
    load_latest hashing (create_checkpoint hashing 9 collect 100 directory).0
    ≡ some (made hashing 9 collect 100 directory)
unfolding add_state finalize new_checkpoint
create_checkpoint-latest_example =
    (create_checkpoint-latest hashing 9 collect 100 directory refl (omega arith, (omega arith, tt))
      (omega arith) refl).1

abbrev alert : Alert
alert = new_alert 0 warning "Disk" "Disk is full" "journal" 5

abbrev alerts : AlertManager
alerts = new_alert_manager [] none false

abbrev situation : Situation
situation = record {
  kill_switch = default_state;
  pending_actions = 0;
  in_flight_actions = 1;
  recent_failures = 2;
  last_action_at = none;
  config_status = default_config_status;
}

raise_alert-shown_example :
    (generate_status (λ h n x. "status") 8 60 situation (raise_alert alert alerts).0).health
    ≡ degraded
unfolding default_state new_alert new_alert_manager
raise_alert-shown_example =
    (raise_alert-shown (λ h n x. "status") alert alerts 8 60 situation refl (omega arith)).0
