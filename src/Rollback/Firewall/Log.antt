-- ===== src/Rollback/Firewall/Log.antt =====
-- rollback/firewall_rollback.rs: the journal of the rollbacks. Every write takes a sequence number,
-- also one that fails.
use project_whitequbit.Base.{
  ℕ, ◌+◌, u64, String, Bool, none, some, List, [], ◌∷◌, ◌++◌, Result, ok, err, max, ltb, text_key,
  if◌then◌else◌,
}
use project_whitequbit.Base.Map
use project_whitequbit.Base.Map.{Map, values}
use project_whitequbit.Ttl.Entry.{RuleId}
use project_whitequbit.Rollback.Firewall.Record.{FirewallRuleRecord, RuleRecordState}
use project_whitequbit.Rollback.Firewall.Registry.{
  RollbackEngineError, io_error, serialization_error,
}

pub data RollbackScope : Type 0 where
  single_action : String → RollbackScope
  journal_entry : ℕ → RollbackScope
  specific_rules : List RuleId → RollbackScope
  last_n : ℕ → RollbackScope
  time_range : ℕ → ℕ → RollbackScope
  all_rules : RollbackScope

pub data RemovalReason : Type 0 where
  rolled_back ttl_expired manual_removal external_removal : RemovalReason

pub data RollbackJournalOp (S : Type 0) : Type 0 where
  rule_created : FirewallRuleRecord S → RollbackJournalOp S
  state_changed : RuleId → RuleRecordState → RuleRecordState → ℕ → RollbackJournalOp S
  rule_removed : RuleId → RemovalReason → RollbackJournalOp S
  rollback_started : String → RollbackScope → List RuleId → RollbackJournalOp S
  rollback_completed : String → Bool → List RuleId → RollbackJournalOp S
  checkpoint : ℕ → ℕ → RollbackJournalOp S

pub record RollbackLogEntry (S : Type 0) : Type 0 where
  pub seq : ℕ
  pub timestamp_ms : ℕ
  pub op : RollbackJournalOp S

pub data Line (S : Type 0) : Type 0 where
  blank garbled : Line S
  written : RollbackLogEntry S → Line S

-- What becomes of a write: it succeeds, it fails at `sync_all` with the line in the file, or it fails
-- and leaves the file as it was.
pub data WriteOutcome : Type 0 where
  succeeds unsynced refused : WriteOutcome

-- `outcomes` says what becomes of the write that takes a sequence number.
pub record RollbackJournal (S : Type 0) : Type 0 where
  pub lines : List (Line S)
  pub next_seq : ℕ
  pub outcomes : ℕ → WriteOutcome

module _ {S : Type 0} where
  -- The loop of `find_max_seq`, which passes over what does not parse.
  unfoldable pub max_seq_from : List (Line S) → ℕ → ℕ
  max_seq_from [] max_seq = max_seq
  max_seq_from (blank ∷ lines) max_seq = max_seq_from lines max_seq
  max_seq_from (garbled ∷ lines) max_seq = max_seq_from lines max_seq
  max_seq_from (written e ∷ lines) max_seq = max_seq_from lines (max max_seq e.seq)

  -- `RollbackJournal::new` on the lines of the file; none if it is not there.
  unfoldable pub open_rollback_journal : List (Line S) → (ℕ → WriteOutcome) → RollbackJournal S
  unfolding max_seq_from
  open_rollback_journal lines outcomes = record {
    lines = lines;
    next_seq = u64 (max_seq_from lines 0 + 1);
    outcomes = outcomes;
  }

  abbrev changed : RuleRecordState → ℕ → FirewallRuleRecord S → FirewallRuleRecord S
  changed new_state generation r =
      if ltb r.generation generation
      then record r { state = new_state; generation = generation }
      else r

  -- The `match` of `load` on an operation.
  unfoldable pub apply_rollback_op :
      RollbackJournalOp S → Map RuleId (FirewallRuleRecord S) → Map RuleId (FirewallRuleRecord S)
  apply_rollback_op (rule_created r) m = Map.insert r.rule_id r m
  apply_rollback_op (state_changed id old_state new_state generation) m = elim (Map.get id m) [
    | none ↦ m
    | some r ↦ Map.insert id (changed new_state generation r) m
  ]
  apply_rollback_op (rule_removed id reason) m = Map.remove id m
  apply_rollback_op (rollback_started rollback_id scope ids) m = m
  apply_rollback_op (rollback_completed rollback_id accomplished ids) m = m
  apply_rollback_op (checkpoint up_to count) m = m

  unfoldable pub replay_from :
      List (Line S)
      → Map RuleId (FirewallRuleRecord S)
      → Result RollbackEngineError (Map RuleId (FirewallRuleRecord S))
  unfolding apply_rollback_op
  replay_from [] m = ok m
  replay_from (blank ∷ lines) m = replay_from lines m
  replay_from (garbled ∷ lines) m = err serialization_error
  replay_from (written e ∷ lines) m = replay_from lines (apply_rollback_op e.op m)

  unfoldable pub load_records :
      RollbackJournal S → Result RollbackEngineError (List (FirewallRuleRecord S))
  unfolding replay_from
  load_records j = elim (replay_from j.lines []) [ err e ↦ err e | ok m ↦ ok (values m) ]

  -- What a write leaves, from the journal with the line and the one without it.
  abbrev pub written_as :
      WriteOutcome
      → RollbackJournal S
      → RollbackJournal S
      → RollbackJournal S × Result RollbackEngineError (Unit {0})
  written_as succeeds longer taken = (longer, ok tt)
  written_as unsynced longer taken = (longer, err io_error)
  written_as refused longer taken = (taken, err io_error)

  unfoldable pub write_op :
      RollbackJournalOp S
      → ℕ
      → RollbackJournal S
      → RollbackJournal S × Result RollbackEngineError (Unit {0})
  write_op op now j =
      let e : RollbackLogEntry S = record { seq = j.next_seq; timestamp_ms = now; op = op } in
      let taken = record j { next_seq = u64 (j.next_seq + 1) } in
      let longer = record taken { lines = j.lines ++ written e ∷ [] } in
      written_as (j.outcomes j.next_seq) longer taken
