-- ===== src/Tests/Ttl.antt =====
-- firewall/ttl.rs on concrete inputs.
use project_whitequbit.Base.{
  ℕ, ◌+◌, ◌≤◌, ◌≡◌, refl, true, none, some, List, [], ◌∷◌, Result, ok, err, inl, arith, text_key,
  from_secs, All,
}
use project_whitequbit.Base.Map
use project_whitequbit.Ttl.Entry
use project_whitequbit.Ttl.Entry.{
  RuleId, TtlEntry, active, failed, expiring, FirewallError, rule_missing, command_failed,
  firewall_error, io_error,
}
use project_whitequbit.Ttl.Index
use project_whitequbit.Ttl.Registry
use project_whitequbit.Ttl.Registry.Histories
use project_whitequbit.Ttl.Registry.{
  TtlRegistry, empty_registry, next_expiration, entries_expiring_before,
}
use project_whitequbit.Ttl.Registry.Consistency.{IsConsistent, due_at}
use project_whitequbit.Ttl.Registry.Deadlines.{
  lists, due_by, entries_expiring_before_exact, next_expiration_earliest,
}
use project_whitequbit.Ttl.Registry.Histories.{
  Operation, registering, cancelling, marking, updating, reaching, LeavesKeys, perform_all,
  history-IsConsistent,
}
use project_whitequbit.Ttl.Coordinator.{new_coordinator}
use project_whitequbit.Ttl.Coordinator.Exclusion.{
  Call, acquire_ttl, acquire_rollback, release, complete, begin, grants, endings, is_owned, one_if,
  removal_exclusive,
}
use project_whitequbit.Ttl.Persister
use project_whitequbit.Ttl.Persister.{Persister}
use project_whitequbit.Ttl.Persister.Replay.{Holds, insert_all, compact_lem}
use project_whitequbit.Ttl.Engine.{TtlEngine, new_engine, default_config, register, cancel, extend}
use project_whitequbit.Ttl.Engine.Extension.{extend_keeps_old_deadline}
use project_whitequbit.Ttl.Engine.Durability.{
  Durable, Registered, register-IsDurable, cancel-IsDurable,
}
use project_whitequbit.Ttl.Expiry.{process_single_expiration}
use project_whitequbit.Ttl.Expiry.Outcomes.{IsReady, process_removes, process_retries}

abbrev web : TtlEntry
web = record {
  rule_id = "web";
  expires_at_ms = 5000;
  created_at_ms = 0;
  original_ttl_secs = 5;
  state = active;
  generation = 1;
}

abbrev ssh : TtlEntry
ssh = record web { rule_id = "ssh"; expires_at_ms = 3000; original_ttl_secs = 3 }

abbrev ops : List Operation
ops =
    registering web
    ∷ registering ssh
    ∷ marking failed "ssh"
    ∷ updating "web" 9000
    ∷ reaching "web" (λ e. record e { generation = 7 })
    ∷ []

ops-LeavesKeys : All LeavesKeys ops
ops-LeavesKeys = (tt, (tt, (tt, (tt, (((λ e. refl), (λ e. refl)), tt)))))

history-IsConsistent_example : IsConsistent (perform_all empty_registry ops)
history-IsConsistent_example = history-IsConsistent ops ops-LeavesKeys

abbrev both : TtlRegistry
both = perform_all empty_registry ops

next_expiration_example : next_expiration both ≡ some 3000
unfolding next_expiration perform_all Histories.perform Registry.register Registry.update_expiration
    Registry.mark Registry.get_mut Map.get Map.insert Index.index_insert Index.index_remove
next_expiration_example = refl

entries_expiring_before_exact_example :
    lists "web" (entries_expiring_before both 8000) ≡ due_by 8000 (Map.get "web" both.by_rule_id)
entries_expiring_before_exact_example =
    (entries_expiring_before_exact both 8000 (history-IsConsistent ops ops-LeavesKeys)).0 "web"

next_expiration_earliest_example :
    ((u : ℕ)
      → next_expiration both ≡ some u
      → ((id : RuleId) × (due_at u (Map.get id both.by_rule_id) ≡ true))
        × ((id : RuleId) (t : ℕ) → due_at t (Map.get id both.by_rule_id) ≡ true → u ≤ t))
    × (next_expiration both ≡ none → (id : RuleId) → Map.get id both.by_rule_id ≡ none)
next_expiration_earliest_example =
    next_expiration_earliest both (history-IsConsistent ops ops-LeavesKeys)

abbrev calls : List Call
calls =
    acquire_ttl "web"
    ∷ acquire_rollback "web"
    ∷ release "web"
    ∷ begin
    ∷ acquire_ttl "web"
    ∷ acquire_rollback "web"
    ∷ complete "web"
    ∷ []

removal_exclusive_example :
    grants "web" new_coordinator calls + one_if (is_owned "web" new_coordinator)
    ≤ endings "web" calls + 1
removal_exclusive_example = removal_exclusive "web" new_coordinator calls

-- The firewall is the list of the rules whose removal it was asked for.
abbrev granting : RuleId → List RuleId → List RuleId × Result FirewallError (Unit {0})
granting id calls = (id ∷ calls, ok tt)

abbrev refusing : RuleId → List RuleId → List RuleId × Result FirewallError (Unit {0})
refusing id calls = (id ∷ calls, err command_failed)

abbrev fresh : TtlEngine (List RuleId)
fresh = new_engine default_config [] new_coordinator []

fresh-Durable : Durable fresh
unfolding new_engine Persister.replay
fresh-Durable = record {
  entries = [];
  log = record { skipped = 0; replays = refl; fresh = omega arith };
  agrees = λ id. refl;
}

register-IsDurable_example :
    Registered fresh (Entry.new_entry "web" (from_secs 5) 0) (register fresh "web" (from_secs 5) 0)
unfolding new_engine Map.get Persister.find_max_seq
register-IsDurable_example =
    (register-IsDurable fresh "web" (from_secs 5) 0 refl (omega arith) fresh-Durable).1 refl

running-Durable : Durable (register fresh "web" (from_secs 5) 0).0
unfolding new_engine Map.get Persister.find_max_seq
running-Durable =
    (((register-IsDurable fresh "web" (from_secs 5) 0 refl (omega arith) fresh-Durable).1 refl).0
      refl).2

-- The engine with `web` registered for five seconds at time 0.
abbrev running : TtlEngine (List RuleId)
running = (register fresh "web" (from_secs 5) 0).0

running_entry : Map.get "web" running.registry.by_rule_id ≡ some web
unfolding new_engine register Entry.new_entry Registry.register Persister.persist Map.get Map.insert
    Index.index_insert next_expiration
running_entry = refl

running_persister : (running.persister.next_seq ≡ 2) × (running.persister.healthy ≡ true)
unfolding new_engine register Entry.new_entry Registry.register Persister.persist Map.get Map.insert
    Index.index_insert next_expiration
running_persister = (refl, refl)

running-IsConsistent : IsConsistent running.registry
unfolding new_engine register Entry.new_entry Registry.register Persister.persist Map.get Map.insert
    Index.index_insert next_expiration
running-IsConsistent =
    unfold Histories.perform Histories.perform_all in
    history-IsConsistent (registering web ∷ []) (tt, tt)

cancel-IsDurable_example :
    Durable (cancel running "web" 1)
    × (Map.get "web" (cancel running "web" 1).registry.by_rule_id ≡ none)
cancel-IsDurable_example =
    cancel-IsDurable running "web" 1 (omega (arith, running_persister.0)) running_persister.1
      running-Durable

-- Extended by ten seconds at time 1000, and due all the same when the first five are over.
extend_keeps_old_deadline_example :
    (Map.get "web" (extend running "web" (from_secs 10) 1000).0.registry.by_rule_id
      ≡ some (record web { expires_at_ms = 15000; generation = 3 }))
    × (lists "web"
          (entries_expiring_before (extend running "web" (from_secs 10) 1000).0.registry 5000)
        ≡ true)
extend_keeps_old_deadline_example =
    extend_keeps_old_deadline running "web" web (from_secs 10) 1000 5000 running-IsConsistent
      running_entry (unfold new_engine register Registry.register Map.get Persister.persist in refl)
      refl (omega arith)

running-IsReady : IsReady running web
running-IsReady = record {
  found = running_entry;
  free = unfold new_engine register Registry.register Persister.persist Map.get in (refl, refl);
  well = running_persister.1;
  room = omega (arith, running_persister.0);
  young = omega arith;
  in_step = running-Durable;
}

process_removes_example : (process_single_expiration granting running web 5000).1 ≡ ok tt
process_removes_example = (process_removes granting running web 5000 running-IsReady (inl refl)).0

process_retries_example :
    (process_single_expiration refusing running web 5000).1 ≡ err (firewall_error command_failed)
process_retries_example = (process_retries refusing running web 5000 running-IsReady refl).0

compact_example :
    ((Persister.compact (web ∷ ssh ∷ []) 7 running.persister).1 ≡ ok tt)
    × Holds
        (Persister.compact (web ∷ ssh ∷ []) 7 running.persister).0
        (insert_all (web ∷ ssh ∷ []) [])
compact_example =
    compact_lem (web ∷ ssh ∷ []) 7 running.persister running_persister.1
      (omega (arith, running_persister.0)) (omega (arith, running_persister.0))

-- A restart long after `web` has expired asks the firewall for nothing.
abbrev restarted : TtlEngine (List RuleId)
restarted = new_engine default_config [] new_coordinator running.persister.lines
