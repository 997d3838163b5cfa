-- ===== src/Rollback/Firewall/Engine.antt =====
-- rollback/firewall_rollback.rs: the engine. The firewall is a parameter, a function on a state of its own; the
-- identifier of a rollback and the time are arguments.
pub mod Execute
pub mod Versions
pub mod Conduct
pub mod Claims
use project_whitequbit.Base.{
  ℕ, ◌+◌, u64, String, Bool, true, false, Option, none, some, List, [], ◌∷◌, Result, ok, err,
  length, keep, leb, not, is_empty, map, text_key, if◌then◌else◌,
}
use project_whitequbit.Base.Hash.{Hashing}
use project_whitequbit.Base.Map
use project_whitequbit.Ttl.Entry.{
  RuleId, CoordinationError, ttl_in_progress, rollback_in_progress, already_removing,
  already_removed,
}
use project_whitequbit.Ttl.Coordinator.{
  Coordinator, try_acquire_rollback_removal, complete_removal, release_removal, begin_rollback,
  end_rollback,
}
use project_whitequbit.Rollback.Firewall.Record.{
  FirewallRuleRecord, RuleRecordState, active, rolling_back, rolled_back, rollback_failed, expired,
  manually_removed, is_failed, needs_rollback, transition_record, new_rule_record,
}
use project_whitequbit.Rollback.Firewall.Registry.{
  FirewallError, no_such_rule, command_failed, RollbackEngineError, coordination_error,
  firewall_error, io_error, RuleRegistry, empty_registry, register_record, records_of,
  get_by_action, get_by_journal_entry, get_last_n, get_by_time_range, get_active, get_by_state,
  update_record_state,
}
use project_whitequbit.Rollback.Firewall.Log.{
  RollbackScope, single_action, journal_entry, specific_rules, last_n, time_range, all_rules,
  ttl_expired, external_removal, rolled_back as by_rollback, rule_created, state_changed,
  rule_removed, rollback_started, rollback_completed, RollbackJournalOp, RollbackJournal,
  load_records, write_op,
}

pub record RecoveryStats : Type 0 where
  pub loaded : ℕ
  pub actives : ℕ
  pub interrupted : ℕ
  pub failures : ℕ
  pub terminal : ℕ

pub record RollbackEngine (S F : Type 0) : Type 0 where
  pub registry : RuleRegistry S
  pub journal : RollbackJournal S
  pub coordinator : Coordinator
  pub firewall : F

-- A step that may fail, and what follows it when it does not.
abbrev pub Step : Type 0 → Type 0 → Type 0
Step E A = E × Result RollbackEngineError A

abbrev pub and_then : {E A B : Type 0} → Step E A → (A → E → Step E B) → Step E B
and_then (s, err e) next = (s, err e)
and_then (s, ok a) next = next a s

-- What holds of the state after a step, and is kept by what follows, holds in the end.
pub and_then-keeps :
    {E A B : Type 0} (P : E → Type 0) (x : Step E A) (next : A → E → Step E B)
    → P x.0
    → ((a : A) (s : E) → P s → P (next a s).0)
    → P (and_then x next).0
and_then-keeps P (s, err e) next p keeps = p
and_then-keeps P (s, ok a) next p keeps = keeps a s p

-- `sort_by` on the version, the greatest first; the sort is stable.
unfoldable pub insert_newest :
    {S : Type 0} → FirewallRuleRecord S → List (FirewallRuleRecord S) → List (FirewallRuleRecord S)
insert_newest r [] = r ∷ []
insert_newest r (q ∷ qs) =
    let later = q ∷ insert_newest r qs in if leb q.version r.version then r ∷ q ∷ qs else later

unfoldable pub sort_newest :
    {S : Type 0} → List (FirewallRuleRecord S) → List (FirewallRuleRecord S)
unfolding insert_newest
sort_newest [] = []
sort_newest (r ∷ rs) = insert_newest r (sort_newest rs)

abbrev rule_ids_of : {S : Type 0} → List (FirewallRuleRecord S) → List RuleId
rule_ids_of rs = map (λ r. r.rule_id) rs

unfoldable pub resolve_scope :
    {S : Type 0} → RollbackScope → RuleRegistry S → List (FirewallRuleRecord S)
unfolding get_by_action get_by_journal_entry records_of get_last_n get_by_time_range get_active
resolve_scope (single_action action_id) g = keep needs_rollback (get_by_action action_id g)
resolve_scope (journal_entry entry_id) g = keep needs_rollback (get_by_journal_entry entry_id g)
resolve_scope (specific_rules ids) g = keep needs_rollback (records_of g ids)
resolve_scope (last_n count) g = keep needs_rollback (get_last_n count g)
resolve_scope (time_range start_ms end_ms) g =
    keep needs_rollback (get_by_time_range start_ms end_ms g)
resolve_scope all_rules g = get_active g

module _ {S : Type 0} where
  -- The loop of `recover`.
  unfoldable pub recover_records :
      List (FirewallRuleRecord S) → RuleRegistry S × RecoveryStats → RuleRegistry S × RecoveryStats
  unfolding register_record
  recover_records [] s = s
  recover_records (r ∷ rs) (g, stats) = elim r.state [
    | active ↦
        recover_records rs (register_record r g, record stats { actives = stats.actives + 1 })
    | rolling_back ↦
        recover_records rs
          (register_record r g, record stats { interrupted = stats.interrupted + 1 })
    | rollback_failed ↦
        recover_records rs (register_record r g, record stats { failures = stats.failures + 1 })
    | rolled_back ↦ recover_records rs (g, record stats { terminal = stats.terminal + 1 })
    | expired ↦ recover_records rs (g, record stats { terminal = stats.terminal + 1 })
    | manually_removed ↦ recover_records rs (g, record stats { terminal = stats.terminal + 1 })
  ]

module _ {S F : Type 0} where
  unfoldable pub new_engine : RollbackJournal S → Coordinator → F → RollbackEngine S F
  unfolding empty_registry
  new_engine journal coordinator firewall = record {
    registry = empty_registry;
    journal = journal;
    coordinator = coordinator;
    firewall = firewall;
  }

  -- A line of the journal.
  abbrev pub note :
      RollbackJournalOp S → ℕ → RollbackEngine S F → Step (RollbackEngine S F) (Unit {0})
  note op now e = let (j, r) = write_op op now e.journal in (record e { journal = j }, r)

  unfoldable pub recover_engine : RollbackEngine S F → Step (RollbackEngine S F) RecoveryStats
  unfolding load_records recover_records
  recover_engine e = elim (load_records e.journal) [
    | err x ↦ (e, err x)
    | ok rs ↦
        let (g, stats) = recover_records rs (
          e.registry,
          record { loaded = length rs; actives = 0; interrupted = 0; failures = 0; terminal = 0 },
        ) in
        (record e { registry = g }, ok stats)
  ]

  unfoldable pub get_failed_rollbacks : RollbackEngine S F → List (FirewallRuleRecord S)
  unfolding get_by_state
  get_failed_rollbacks e = get_by_state is_failed e.registry

module _ {S F : Type 0} (hashing : Hashing S) where
  unfoldable pub register_rule :
      (S → Option ℕ)
      → RuleId
      → String
      → ℕ
      → S
      → ℕ
      → RollbackEngine S F
      → Step (RollbackEngine S F) (Unit {0})
  unfolding new_rule_record write_op register_record
  register_rule ttl_of rule_id action_id journal_entry_id spec now e =
      let r =
        new_rule_record hashing ttl_of rule_id action_id journal_entry_id spec
          e.registry.next_version now in
      and_then (note (rule_created r) now e)
        (λ _ e'. (record e' { registry = register_record r e'.registry }, ok tt))

  -- A line that the journal refuses is passed over.
  unfoldable pub notify_ttl_expired : RuleId → ℕ → RollbackEngine S F → RollbackEngine S F
  unfolding transition_record write_op
  notify_ttl_expired id now e = elim (Map.get id e.registry.by_rule_id) [
    | none ↦ e
    | some r ↦
        (note (rule_removed id ttl_expired) now (record e {
          registry = record e.registry {
            by_rule_id = Map.insert id (transition_record hashing expired r) e.registry.by_rule_id;
          };
        })).0
  ]

  abbrev pub update_state :
      RuleId → RuleRecordState → RollbackEngine S F → Step (RollbackEngine S F) (Unit {0})
  update_state id new_state e =
      let (g, r) = update_record_state hashing id new_state e.registry in
      (record e { registry = g }, r)
