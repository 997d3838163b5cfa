-- ===== src/Rollback/Firewall/Engine/Execute.antt =====
-- rollback/firewall_rollback.rs: rolling rules back.
use project_whitequbit.Base.{
  ℕ, ◌+◌, u64, String, List, [], ◌∷◌, Result, ok, err, length, keep, not, is_empty, map,
  if◌then◌else◌,
}
use project_whitequbit.Base.Hash.{Hashing}
use project_whitequbit.Ttl.Entry.{RuleId, CoordinationError, ttl_in_progress, already_removed}
use project_whitequbit.Ttl.Coordinator.{
  Coordinator, try_acquire_rollback_removal, complete_removal, release_removal, begin_rollback,
  end_rollback,
}
use project_whitequbit.Rollback.Firewall.Record.{
  FirewallRuleRecord, rolling_back, rolled_back, rollback_failed, manually_removed,
}
use project_whitequbit.Rollback.Firewall.Registry.{
  FirewallError, no_such_rule, command_failed, RollbackEngineError, coordination_error,
  firewall_error,
}
use project_whitequbit.Rollback.Firewall.Log.{
  RollbackScope, single_action, specific_rules, last_n, time_range, all_rules, external_removal,
  rolled_back as by_rollback, state_changed, rule_removed, rollback_started, rollback_completed,
}
use project_whitequbit.Rollback.Firewall.Results.{
  RuleRollbackResult, removed_result, already_removed_result, skipped_result, failure_result,
  RollbackResult, empty_result,
}
use project_whitequbit.Rollback.Firewall.Engine.{
  RollbackEngine, Step, and_then, note, update_state, resolve_scope, sort_newest, rule_ids_of,
  get_failed_rollbacks,
}

abbrev answer : {E A : Type 0} → A → E → Step E A
answer a e = (e, ok a)

abbrev pub set_coordinator : {S F : Type 0} → Coordinator → RollbackEngine S F → RollbackEngine S F
set_coordinator c e = record e { coordinator = c }

abbrev pub failed_ids : List RuleRollbackResult → List RuleId
failed_ids results = map (λ x. x.rule_id) (keep (λ x. not x.success) results)

abbrev pub summary : String → RollbackScope → ℕ → List RuleRollbackResult → RollbackResult
summary rollback_id scope total results = record {
  rollback_id = rollback_id;
  scope = scope;
  total_rules = total;
  succeeded = length (keep (λ x. x.success) results);
  failed = length (failed_ids results);
  results = results;
  requires_intervention = not (is_empty (failed_ids results));
}

module _ {S F : Type 0} (now : ℕ) where
  abbrev pub note_start :
      String
      → RollbackScope
      → List (FirewallRuleRecord S)
      → RollbackEngine S F
      → Step (RollbackEngine S F) (Unit {0})
  note_start rollback_id scope rules =
      note (rollback_started rollback_id scope (rule_ids_of rules)) now

  abbrev pub note_end :
      String → List RuleRollbackResult → RollbackEngine S F → Step (RollbackEngine S F) (Unit {0})
  note_end rollback_id results =
      note (rollback_completed rollback_id (is_empty (failed_ids results)) (failed_ids results)) now

module _ {S F : Type 0} (hashing : Hashing S)
    (remove_rule : RuleId → F → F × Result FirewallError (Unit {0})) (now : ℕ) where
  -- The `match` on what the firewall answered.
  unfoldable pub after_removal :
      FirewallRuleRecord S
      → Result FirewallError (Unit {0})
      → RollbackEngine S F
      → Step (RollbackEngine S F) RuleRollbackResult
  after_removal r (ok _) e = and_then (update_state hashing r.rule_id rolled_back e) (λ _ e₁.
      and_then (note (rule_removed r.rule_id by_rollback) now e₁) (λ _ e₂.
        answer (removed_result r.rule_id)
          (set_coordinator (complete_removal e₂.coordinator r.rule_id) e₂)))
  after_removal r (err no_such_rule) e =
      and_then (update_state hashing r.rule_id manually_removed e) (λ _ e₁.
        and_then (note (rule_removed r.rule_id external_removal) now e₁) (λ _ e₂.
          answer (already_removed_result r.rule_id)
            (set_coordinator (complete_removal e₂.coordinator r.rule_id) e₂)))
  after_removal r (err command_failed) e =
      and_then (update_state hashing r.rule_id rollback_failed e) (λ _ e₁.
        and_then
          (note (state_changed r.rule_id rolling_back rollback_failed (u64 (r.generation + 2))) now
            e₁)
          (λ _ e₂. (
            set_coordinator (release_removal e₂.coordinator r.rule_id) e₂,
            err (firewall_error command_failed),
          )))

  -- The removal, once the coordinator let the rollback have the rule.
  unfoldable pub remove_claimed :
      FirewallRuleRecord S → RollbackEngine S F → Step (RollbackEngine S F) RuleRollbackResult
  unfolding after_removal
  remove_claimed r e = and_then (update_state hashing r.rule_id rolling_back e) (λ _ e₁.
      and_then (note (state_changed r.rule_id r.state rolling_back (u64 (r.generation + 1))) now e₁)
        (λ _ e₂.
          let (f, removed) = remove_rule r.rule_id e₂.firewall in
          after_removal r removed (record e₂ { firewall = f })))

  -- The `match` on what the coordinator answered.
  unfoldable pub after_claim :
      FirewallRuleRecord S
      → Result CoordinationError (Unit {0})
      → RollbackEngine S F
      → Step (RollbackEngine S F) RuleRollbackResult
  unfolding remove_claimed
  after_claim r (ok _) e = remove_claimed r e
  after_claim r (err ttl_in_progress) e = (e, ok (skipped_result r.rule_id))
  after_claim r (err already_removed) e =
      and_then (update_state hashing r.rule_id manually_removed e)
        (λ _ e₁. (e₁, ok (already_removed_result r.rule_id)))
  after_claim r (err x) e = (e, err (coordination_error x))

  unfoldable pub rollback_single_rule :
      FirewallRuleRecord S → RollbackEngine S F → Step (RollbackEngine S F) RuleRollbackResult
  unfolding after_claim
  rollback_single_rule r e =
      let (c, claimed) = try_acquire_rollback_removal e.coordinator r.rule_id in
      after_claim r claimed (set_coordinator c e)

  -- What one round of the loop adds to the results.
  abbrev pub result_of :
      FirewallRuleRecord S → Result RollbackEngineError RuleRollbackResult → RuleRollbackResult
  result_of r (ok result) = result
  result_of r (err x) = failure_result r.rule_id x

  -- The loop over the rules. The failed ones are those whose result is not a success.
  unfoldable pub rollback_each :
      List (FirewallRuleRecord S)
      → RollbackEngine S F
      → RollbackEngine S F × List RuleRollbackResult
  unfolding rollback_single_rule
  rollback_each [] e = (e, [])
  rollback_each (r ∷ rs) e =
      let (e₁, result) = rollback_single_rule r e in
      let (e₂, results) = rollback_each rs e₁ in (e₂, result_of r result ∷ results)

  -- `execute_rollback_inner` on the rules of the scope.
  unfoldable pub rollback_resolved :
      String
      → RollbackScope
      → List (FirewallRuleRecord S)
      → RollbackEngine S F
      → Step (RollbackEngine S F) RollbackResult
  unfolding rollback_each sort_newest
  rollback_resolved rollback_id scope rules e =
      and_then (note_start now rollback_id scope rules e) (λ _ e₁.
        let (e₂, results) = rollback_each (sort_newest rules) e₁ in
        and_then (note_end now rollback_id results e₂)
          (λ _ e₃. (e₃, ok (summary rollback_id scope (length rules) results))))

  unfoldable pub execute_rollback_inner :
      String → RollbackScope → RollbackEngine S F → Step (RollbackEngine S F) RollbackResult
  unfolding rollback_resolved resolve_scope
  execute_rollback_inner rollback_id scope e =
      let rules = resolve_scope scope e.registry in
      if is_empty rules
      then (e, ok (empty_result rollback_id scope))
      else rollback_resolved rollback_id scope rules e

  unfoldable pub execute_rollback :
      String → RollbackScope → RollbackEngine S F → Step (RollbackEngine S F) RollbackResult
  unfolding execute_rollback_inner
  execute_rollback rollback_id scope e =
      let (e', result) =
        execute_rollback_inner rollback_id scope
          (set_coordinator (begin_rollback e.coordinator) e) in
      (set_coordinator (end_rollback e'.coordinator) e', result)

  unfoldable pub rollback_action :
      String → String → RollbackEngine S F → Step (RollbackEngine S F) RollbackResult
  rollback_action rollback_id action_id = execute_rollback rollback_id (single_action action_id)

  unfoldable pub rollback_rules :
      String → List RuleId → RollbackEngine S F → Step (RollbackEngine S F) RollbackResult
  rollback_rules rollback_id rule_ids = execute_rollback rollback_id (specific_rules rule_ids)

  unfoldable pub rollback_last_n :
      String → ℕ → RollbackEngine S F → Step (RollbackEngine S F) RollbackResult
  rollback_last_n rollback_id count = execute_rollback rollback_id (last_n count)

  unfoldable pub rollback_time_range :
      String → ℕ → ℕ → RollbackEngine S F → Step (RollbackEngine S F) RollbackResult
  rollback_time_range rollback_id start_ms end_ms =
      execute_rollback rollback_id (time_range start_ms end_ms)

  unfoldable pub rollback_all :
      String → RollbackEngine S F → Step (RollbackEngine S F) RollbackResult
  rollback_all rollback_id = execute_rollback rollback_id all_rules

  unfoldable pub retry_failed :
      String → RollbackEngine S F → Step (RollbackEngine S F) RollbackResult
  unfolding get_failed_rollbacks
  retry_failed rollback_id e =
      execute_rollback rollback_id (specific_rules (rule_ids_of (get_failed_rollbacks e))) e
