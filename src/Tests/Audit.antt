-- ===== src/Tests/Audit.antt =====
-- audit/ on concrete inputs.
use project_whitequbit.Base.{
  ℕ, ◌+◌, ◌≡◌, refl, u64, Bool, true, false, none, some, List, [], ◌∷◌, ok, ltb, arith, text_key,
  ◌==◌, if◌then◌else◌,
}
use project_whitequbit.Base.Hash.{Hashing}
use project_whitequbit.Audit.Entry.{Json, null, AuditEntry, agent_startup}
use project_whitequbit.Audit.Sink.{FileSink}
use project_whitequbit.Audit.Integrity.{pass, verify_file}
use project_whitequbit.Audit.Integrity.Chain.{entries, is_valid, verify_file-Intact}
use project_whitequbit.Audit.Logger.{AuditLogger, append_with_details, write_next, prepared_entry}
use project_whitequbit.Audit.Logger.Growth.{
  LogCall, call_shutdown, call_action_prepared, call_sandbox_applied, runs, runs-IsChained,
  runs_verify,
}
use project_whitequbit.Audit.Logger.Race.{prepared_race_breaks}

abbrev total : List ℕ → ℕ
total [] = 0
total (n ∷ ns) = n + total ns

abbrev hashing : Hashing Json
hashing = record {
  digest = λ bs. if ltb 100 (total bs) then "large" else "small";
  text_bytes = λ s. if s == "" then [] else 7 ∷ [];
  data_bytes = λ d. 3 ∷ [];
  time_bytes = λ n. n ∷ [];
}

abbrev fresh : AuditLogger
fresh = record {
  sink = record { lines = []; healthy = true; leaves_line = false };
  next_sequence = 1;
  last_hash = "";
}

abbrev log_calls : List (LogCall × (ℕ × Bool))
log_calls =
    (call_sandbox_applied "seccomp", (3, true))
    ∷ (call_action_prepared "a" "firewall" (some "root"), (4, false))
    ∷ (call_shutdown "done", (5, true))
    ∷ []

runs_verify_example :
    verify_file hashing (runs hashing log_calls fresh).sink.lines
    ≡ ok (pass (u64 (entries (runs hashing log_calls fresh).sink.lines)))
runs_verify_example = (runs_verify hashing log_calls fresh (tt, refl)).0

abbrev sink_after : FileSink
sink_after = (runs hashing log_calls fresh).sink

verify_file-Intact_example :
    verify_file hashing sink_after.lines ≡ ok (pass (u64 (entries sink_after.lines)))
verify_file-Intact_example =
    (verify_file-Intact hashing sink_after.lines).0
      (runs-IsChained hashing log_calls fresh (tt, refl)).0

prepared_race_breaks_example :
    is_valid (
      verify_file hashing
        (write_next
          (prepared_entry hashing 3 "a" "firewall" none fresh)
          (append_with_details hashing 4 agent_startup null fresh).0).0.sink.lines)
    ≡ false
prepared_race_breaks_example =
    prepared_race_breaks hashing 3 4 "a" "firewall" none agent_startup null fresh refl (omega arith)
      (tt, refl)

abbrev entry : AuditEntry
entry = record {
  sequence = 1;
  timestamp = 2;
  event_type = agent_startup;
  actor = none;
  target = none;
  details = null;
  previous_hash = "";
  hash = "small";
}
