-- ===== src/Rollback/Firewall/Engine/Conduct.antt =====
-- What a rollback does to the firewall, and how its answer accounts for the rules of its scope.
use project_whitequbit.Base.{ℕ, ◌+◌, ◌≡◌, List, Result, ok, err, length, not, nat_eqb, map}
use project_whitequbit.Base.Hash.{Hashing}
use project_whitequbit.Ttl.Entry.{RuleId}
use project_whitequbit.Rollback.Firewall.Record.{FirewallRuleRecord, rolled_back}
use project_whitequbit.Rollback.Firewall.Registry.{FirewallError, RollbackEngineError, io_error}
use project_whitequbit.Rollback.Firewall.Log.{rolled_back as by_rollback}
use project_whitequbit.Rollback.Firewall.Results.{RuleRollbackResult, RollbackResult}
use project_whitequbit.Rollback.Firewall.Engine.{RollbackEngine, sort_newest}

module _ {S F : Type 0} (hashing : Hashing S)
    (remove_rule : RuleId → F → F × Result FirewallError (Unit {0})) (now : ℕ) where
  module _ (P : F → Type 0) where
    -- The firewall is as it should be.
    abbrev Kept : RollbackEngine S F → Type 0
    Kept e = P e.firewall

    -- Removing the rule from the firewall keeps it so.
    abbrev Harmless : FirewallRuleRecord S → Type 0
    Harmless r = (f : F) → P f → P (remove_rule r.rule_id f).0

  -- A result names the rule it is about.
  abbrev Names : RuleId → Result RollbackEngineError RuleRollbackResult → Type 0
  Names id (ok result) = result.rule_id ≡ id
  Names id (err x) = Unit

  abbrev pub named : List RuleRollbackResult → List RuleId
  named results = map (λ x. x.rule_id) results

  -- What an answer says of the rules of the scope; it is an error only if the journal refused a line.
  abbrev pub Accounted :
      List (FirewallRuleRecord S) → Result RollbackEngineError RollbackResult → Type 0
  Accounted rules (ok r) =
      (r.total_rules ≡ length rules)
      × (r.succeeded + r.failed ≡ r.total_rules)
      × (named r.results ≡ map (λ x. x.rule_id) (sort_newest rules))
      × (r.requires_intervention ≡ not (nat_eqb r.failed 0))
  Accounted rules (err x) = x ≡ io_error

  abbrev NoteFails : Result RollbackEngineError (Unit {0}) → Type 0
  NoteFails (ok _) = Unit
  NoteFails (err x) = x ≡ io_error
