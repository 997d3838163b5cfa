-- ===== src/Tests/FirewallRollback.antt =====
-- rollback/firewall_rollback.rs on concrete inputs.
use project_whitequbit.Base.{
  ℕ, ◌+◌, ◌≤◌, ◌≡◌, refl, Bool, true, false, some, List, [], ◌∷◌, length, Result, ok, err, nat_eqb,
  text_key, ◌==◌, if◌then◌else◌,
}
use project_whitequbit.Base.Map
use project_whitequbit.Base.Hash.{Hashing}
use project_whitequbit.Ttl.Entry.{RuleId}
use project_whitequbit.Ttl.Coordinator.{new_coordinator, try_acquire_rollback_removal}
use project_whitequbit.Rollback.Firewall.Registry.{
  update_record_state, FirewallError, command_failed, io_error,
}
use project_whitequbit.Rollback.Firewall.Log.{
  succeeds, refused, last_n, open_rollback_journal, write_op,
}
use project_whitequbit.Rollback.Firewall.Engine.{
  RollbackEngine, new_engine, resolve_scope, register_rule,
}
use project_whitequbit.Rollback.Firewall.Engine.Versions.{
  Registration, register_all, registered_last_n,
}
use project_whitequbit.Rollback.Firewall.Engine.Execute.{rollback_single_rule}
use project_whitequbit.Rollback.Firewall.Engine.Claims.{Settled, rollback_single_rule-Settled}
use project_whitequbit.Rollback.Firewall.Record.{FirewallRuleRecord, new_rule_record}

abbrev hashing : Hashing ℕ
hashing = record {
  digest = λ bs. if nat_eqb (length bs) 3 then "three" else "other";
  text_bytes = λ s. if s == "" then [] else 7 ∷ [];
  data_bytes = λ d. d ∷ [];
  time_bytes = λ n. n ∷ [];
}

-- The firewall counts the removals that it was asked for, knows whether the rule for SSH is there,
-- and refuses one of the rules.
abbrev Firewall : Type 0
Firewall = ℕ × Bool

abbrev remove_rule : RuleId → Firewall → Firewall × Result FirewallError (Unit {0})
remove_rule id (n, ssh) =
    ((n + 1, if id == "ssh" then false else ssh), if id == "r2" then err command_failed else ok tt)

abbrev registration : RuleId → ℕ → Registration ℕ
registration id now = record {
  rule_id = id;
  action_id = "a";
  journal_entry_id = 5;
  spec = 60;
  now = now;
}

abbrev registrations : List (Registration ℕ)
registrations = registration "r1" 10 ∷ registration "r2" 11 ∷ registration "r3" 12 ∷ []

abbrev engine : RollbackEngine ℕ Firewall
engine =
    register_all hashing (λ ttl. some ttl) registrations
      (new_engine (open_rollback_journal [] (λ seq. succeeds)) new_coordinator (0, true))

registered_last_n_example : length (resolve_scope (last_n 3) engine.registry) ≤ 1
unfolding new_engine
registered_last_n_example =
    registered_last_n hashing (λ ttl. some ttl) registrations 3
      (new_engine (open_rollback_journal [] (λ seq. succeeds)) new_coordinator (0, true)) refl

abbrev web : FirewallRuleRecord ℕ
unfolding new_rule_record
web = new_rule_record hashing (λ ttl. some ttl) "r1" "a" 5 60 0 10

rollback_single_rule-Settled_example :
    Settled "r1"
      (remove_rule "r1" engine.firewall)
      (rollback_single_rule hashing remove_rule 20 web engine)
unfolding new_engine register_rule Map.get new_rule_record open_rollback_journal
rollback_single_rule-Settled_example =
    rollback_single_rule-Settled hashing remove_rule 20 web engine refl

-- The journal takes the registrations and refuses every line after them.
abbrev failing_engine : RollbackEngine ℕ Firewall
failing_engine = record engine { journal = record engine.journal { outcomes = λ seq. refused } }

refused_line_leaks :
    (rollback_single_rule hashing remove_rule 20 web failing_engine).1 ≡ err io_error
unfolding new_engine register_rule Map.get Map.insert write_op new_rule_record rollback_single_rule
    open_rollback_journal try_acquire_rollback_removal update_record_state
refused_line_leaks = refl
