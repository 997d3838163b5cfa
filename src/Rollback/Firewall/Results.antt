-- ===== src/Rollback/Firewall/Results.antt =====
-- rollback/firewall_rollback.rs: what a rollback answers.
use project_whitequbit.Base.{
  ℕ, String, Bool, true, false, Option, none, some, List, [], nat_eqb, keep, map, not,
}
use project_whitequbit.Ttl.Entry.{RuleId}
use project_whitequbit.Rollback.Firewall.Registry.{RollbackEngineError}
use project_whitequbit.Rollback.Firewall.Log.{RollbackScope}

-- The texts of a result are left out, but for the kind of a failure.
pub record RuleRollbackResult : Type 0 where
  pub rule_id : RuleId
  pub success : Bool
  pub was_already_removed : Bool
  pub skipped : Bool
  pub error : Option RollbackEngineError

unfoldable pub removed_result : RuleId → RuleRollbackResult
removed_result id = record {
  rule_id = id;
  success = true;
  was_already_removed = false;
  skipped = false;
  error = none;
}

unfoldable pub already_removed_result : RuleId → RuleRollbackResult
already_removed_result id = record {
  rule_id = id;
  success = true;
  was_already_removed = true;
  skipped = false;
  error = none;
}

unfoldable pub skipped_result : RuleId → RuleRollbackResult
skipped_result id = record {
  rule_id = id;
  success = true;
  was_already_removed = false;
  skipped = true;
  error = none;
}

unfoldable pub failure_result : RuleId → RollbackEngineError → RuleRollbackResult
failure_result id e = record {
  rule_id = id;
  success = false;
  was_already_removed = false;
  skipped = false;
  error = some e;
}

pub record RollbackResult : Type 0 where
  pub rollback_id : String
  pub scope : RollbackScope
  pub total_rules : ℕ
  pub succeeded : ℕ
  pub failed : ℕ
  pub results : List RuleRollbackResult
  pub requires_intervention : Bool

unfoldable pub empty_result : String → RollbackScope → RollbackResult
empty_result rollback_id scope = record {
  rollback_id = rollback_id;
  scope = scope;
  total_rules = 0;
  succeeded = 0;
  failed = 0;
  results = [];
  requires_intervention = false;
}

unfoldable pub is_success : RollbackResult → Bool
is_success r = nat_eqb r.failed 0

unfoldable pub failed_rules : RollbackResult → List RuleId
failed_rules r = map (λ x. x.rule_id) (keep (λ x. not x.success) r.results)
