-- ===== src/Audit/Immutable/Open.antt =====
-- audit/immutable.rs: opening the logger on the files that an earlier run left.
use project_whitequbit.Base.{
  ℕ, String, Bool, false, Option, none, some, List, [], Result, ok, err, nat_eqb, ltb, ◌&&◌,
  if◌then◌else◌,
}
use project_whitequbit.Base.Hash.{Hashing}
use project_whitequbit.Audit.Entry.{Json}
use project_whitequbit.Audit.Immutable.Entry.{ImmutableAuditEntry}
use project_whitequbit.Audit.Immutable.Verify.{
  Line, ImmutableAuditError, io, chain_broken, verify_chain, ChainState, load_chain_state,
}
use project_whitequbit.Audit.Immutable.Wal
use project_whitequbit.Audit.Immutable.Wal.{WalLine, Encoding}
use project_whitequbit.Audit.Immutable.Log.{ImmutableAuditConfig, ImmutableAuditLogger}

abbrev unwrap_or_zero : Option ℕ → ℕ
unwrap_or_zero none = 0
unwrap_or_zero (some n) = n

-- A new logger from what was read.
abbrev pub fresh_logger :
    ImmutableAuditConfig → List Line → ChainState → ℕ → List WalLine → ImmutableAuditLogger
fresh_logger config lines chain recoveries wal = record {
  config = config;
  lines = lines;
  wal = wal;
  state = record {
    next_sequence = chain.next_sequence;
    last_hash = chain.last_hash;
    last_checkpoint_seq = chain.last_checkpoint_seq;
    cumulative_hash = chain.cumulative_hash;
    hashes_since_checkpoint = [];
    recent_entries = [];
  };
  metrics = record { entries_written = 0; checkpoints_created = 0; wal_recoveries = recoveries };
  poisoned = false;
}

-- The number of recoveries that a pending entry counts for.
abbrev recoveries_of : Option ImmutableAuditEntry → ℕ → ℕ
recoveries_of none next_sequence = 0
recoveries_of (some e) next_sequence = if nat_eqb e.sequence next_sequence then 1 else 0

-- The write-ahead file after the pending entry was looked at; emptying it may fail.
abbrev emptied :
    Option ImmutableAuditEntry → Bool → List WalLine → Result ImmutableAuditError (List WalLine)
emptied none commit_ok wal = ok wal
emptied (some e) commit_ok wal = if commit_ok then ok [] else err io

module _ (hashing : Hashing Json) (quoted_bytes : String → List ℕ) (encoding : Encoding) where
  -- The check at startup.
  unfoldable pub check_chain :
      ImmutableAuditConfig
      → List Line
      → ImmutableAuditLogger
      → Result ImmutableAuditError ImmutableAuditLogger
  check_chain config lines l =
      if config.verify_on_startup && ltb 1 l.state.next_sequence
      then elim (verify_chain hashing quoted_bytes lines) [
        | err x ↦ err x
        | ok r ↦
            if r.valid then ok l else err (chain_broken (unwrap_or_zero r.first_invalid) r.issue)
      ]
      else ok l

  -- `ImmutableAuditLogger::new` on the lines of its two files; `commit_ok` says whether the
  -- write-ahead file can be emptied.
  unfoldable pub open_logger :
      ImmutableAuditConfig
      → List Line
      → List WalLine
      → Bool
      → Result ImmutableAuditError ImmutableAuditLogger
  open_logger config lines wal commit_ok = elim (load_chain_state lines) [
    | err x ↦ err x
    | ok chain ↦ elim (Wal.recover encoding wal) [
      | err x ↦ err x
      | ok pending ↦ elim (emptied pending commit_ok wal) [
        | err x ↦ err x
        | ok wal' ↦
            check_chain config lines
              (fresh_logger config lines chain (recoveries_of pending chain.next_sequence) wal')
      ]
    ]
  ]
