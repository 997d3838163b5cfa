-- ===== src/Rollback/Firewall/Registry.antt =====
-- rollback/firewall_rollback.rs: the registry of the rules, with its indices. A HashMap gives its values in the
-- order in which the keys came.
use project_whitequbit.Base.{
  ℕ, zero, suc, ◌+◌, u64, String, Bool, Option, none, some, List, [], ◌∷◌, ◌++◌, Result, ok, err,
  length, keep, leb, not, reverse, ◌&&◌, is_some, number_key, text_key, ◌==◌,
}
use project_whitequbit.Base.Hash.{Hashing}
use project_whitequbit.Base.Map
use project_whitequbit.Base.Sorted.{NumberedMap, put_at, drop_at}
use project_whitequbit.Base.Map.{Map, values}
use project_whitequbit.Ttl.Entry.{RuleId, CoordinationError}
use project_whitequbit.Rollback.Firewall.Record.{
  FirewallRuleRecord, RuleRecordState, is_active, transition_record,
}

pub data FirewallError : Type 0 where
  no_such_rule command_failed : FirewallError

-- The errors that the modelled code raises.
pub data RollbackEngineError : Type 0 where
  rule_not_found : RuleId → RollbackEngineError
  coordination_error : CoordinationError → RollbackEngineError
  firewall_error : FirewallError → RollbackEngineError
  io_error serialization_error : RollbackEngineError

-- `by_version` is a BTreeMap: a list in the order of the versions.
pub record RuleRegistry (S : Type 0) : Type 0 where
  pub by_rule_id : Map RuleId (FirewallRuleRecord S)
  pub by_action_id : Map String (List RuleId)
  pub by_journal_entry : Map ℕ (List RuleId)
  pub by_version : NumberedMap RuleId
  pub next_version : ℕ
  pub registry_version : ℕ

abbrev or_none : Option (List RuleId) → List RuleId
or_none none = []
or_none (some ids) = ids

-- `values()` of the index by version.
abbrev pub version_ids : NumberedMap RuleId → List RuleId
version_ids [] = []
version_ids ((n, id) ∷ m) = id ∷ version_ids m

abbrev pub take : ℕ → List RuleId → List RuleId
take zero ids = []
take (suc n) [] = []
take (suc n) (id ∷ ids) = id ∷ take n ids

-- `retain(|id| id != rule_id)` on the list of a key that is there.
abbrev without : RuleId → List RuleId → List RuleId
without id ids = keep (λ j. not (j == id)) ids

abbrev retain_action : String → RuleId → Map String (List RuleId) → Map String (List RuleId)
retain_action k id m = elim (Map.get k m) [ none ↦ m | some ids ↦ Map.insert k (without id ids) m ]

abbrev retain_entry : ℕ → RuleId → Map ℕ (List RuleId) → Map ℕ (List RuleId)
retain_entry k id m = elim (Map.get k m) [ none ↦ m | some ids ↦ Map.insert k (without id ids) m ]

module _ {S : Type 0} where
  unfoldable pub empty_registry : RuleRegistry S
  empty_registry = record {
    by_rule_id = [];
    by_action_id = [];
    by_journal_entry = [];
    by_version = [];
    next_version = 1;
    registry_version = 0;
  }

  -- `next_version`, the counter before and after.
  unfoldable pub take_version : RuleRegistry S → RuleRegistry S × ℕ
  take_version g = (record g { next_version = u64 (g.next_version + 1) }, g.next_version)

  unfoldable pub register_record : FirewallRuleRecord S → RuleRegistry S → RuleRegistry S
  unfolding put_at
  register_record r g = record g {
    by_rule_id = Map.insert r.rule_id r g.by_rule_id;
    by_action_id =
        Map.insert r.action_id (or_none (Map.get r.action_id g.by_action_id) ++ r.rule_id ∷ [])
          g.by_action_id;
    by_journal_entry =
        Map.insert r.journal_entry_id
          (or_none (Map.get r.journal_entry_id g.by_journal_entry) ++ r.rule_id ∷ [])
          g.by_journal_entry;
    by_version = put_at r.version r.rule_id g.by_version;
    registry_version = u64 (g.registry_version + 1);
  }

  unfoldable pub get_record : RuleId → RuleRegistry S → Option (FirewallRuleRecord S)
  get_record id g = Map.get id g.by_rule_id

  unfoldable pub contains : RuleId → RuleRegistry S → Bool
  contains id g = is_some (Map.get id g.by_rule_id)

  -- `filter_map` of the records of identifiers.
  unfoldable pub records_of : RuleRegistry S → List RuleId → List (FirewallRuleRecord S)
  records_of g [] = []
  records_of g (id ∷ ids) =
      let rest = records_of g ids in
      elim (Map.get id g.by_rule_id) [ none ↦ rest | some r ↦ r ∷ rest ]

  unfoldable pub get_by_action : String → RuleRegistry S → List (FirewallRuleRecord S)
  unfolding records_of
  get_by_action action_id g = records_of g (or_none (Map.get action_id g.by_action_id))

  unfoldable pub get_by_journal_entry : ℕ → RuleRegistry S → List (FirewallRuleRecord S)
  unfolding records_of
  get_by_journal_entry entry_id g = records_of g (or_none (Map.get entry_id g.by_journal_entry))

  unfoldable pub get_by_version_desc : RuleRegistry S → List (FirewallRuleRecord S)
  unfolding records_of
  get_by_version_desc g = records_of g (reverse (version_ids g.by_version))

  unfoldable pub get_last_n : ℕ → RuleRegistry S → List (FirewallRuleRecord S)
  unfolding records_of
  get_last_n count g = records_of g (take count (reverse (version_ids g.by_version)))

  unfoldable pub get_by_time_range : ℕ → ℕ → RuleRegistry S → List (FirewallRuleRecord S)
  get_by_time_range start_ms end_ms g =
      keep (λ r. leb start_ms r.created_at_ms && leb r.created_at_ms end_ms) (values g.by_rule_id)

  unfoldable pub get_active : RuleRegistry S → List (FirewallRuleRecord S)
  get_active g = keep (λ r. is_active r.state) (values g.by_rule_id)

  -- The test stands for the comparison with a state.
  unfoldable pub get_by_state :
      (RuleRecordState → Bool) → RuleRegistry S → List (FirewallRuleRecord S)
  get_by_state is_in g = keep (λ r. is_in r.state) (values g.by_rule_id)

  unfoldable pub active_count : RuleRegistry S → ℕ
  unfolding get_active
  active_count g = length (get_active g)

  unfoldable pub total_count : RuleRegistry S → ℕ
  total_count g = length g.by_rule_id

  unfoldable pub remove_record :
      RuleId → RuleRegistry S → RuleRegistry S × Option (FirewallRuleRecord S)
  unfolding drop_at
  remove_record id g = elim (Map.get id g.by_rule_id) [
    | none ↦ (g, none)
    | some r ↦ (
      record g {
        by_rule_id = Map.remove id g.by_rule_id;
        by_action_id = retain_action r.action_id id g.by_action_id;
        by_journal_entry = retain_entry r.journal_entry_id id g.by_journal_entry;
        by_version = drop_at r.version g.by_version;
        registry_version = u64 (g.registry_version + 1);
      },
      some r,
    )
  ]

  unfoldable pub update_record_state :
      Hashing S
      → RuleId
      → RuleRecordState
      → RuleRegistry S
      → RuleRegistry S × Result RollbackEngineError (Unit {0})
  unfolding transition_record
  update_record_state hashing id new_state g = elim (Map.get id g.by_rule_id) [
    | none ↦ (g, err (rule_not_found id))
    | some r ↦ (
      record g {
        by_rule_id = Map.insert id (transition_record hashing new_state r) g.by_rule_id;
        registry_version = u64 (g.registry_version + 1);
      },
      ok tt,
    )
  ]
