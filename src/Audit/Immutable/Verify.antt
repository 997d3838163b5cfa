-- ===== src/Audit/Immutable/Verify.antt =====
-- audit/immutable.rs: reading the log file, to verify its chain and to go on with it. A file that is not
-- there has no lines. The texts of an issue are the constructors of a type.
pub mod Chain
use project_whitequbit.Base.{
  ℕ, ◌+◌, u64, String, Bool, true, false, Option, none, some, List, [], ◌∷◌, Result, ok, err,
  nat_eqb, not, if◌then◌else◌, text_key, ◌==◌,
}
use project_whitequbit.Base.Hash.{Hashing}
use project_whitequbit.Audit.Entry.{Json}
use project_whitequbit.Audit.Immutable.Entry.{CheckpointData, ImmutableAuditEntry, verify_hash}

pub data Line : Type 0 where
  blank garbled : Line
  written : ImmutableAuditEntry → Line

pub data Issue : Type 0 where
  sequence_gap : ℕ → ℕ → Issue
  chain_mismatch : String → String → Issue
  content_modified : Issue

-- The errors that the modelled code raises; the texts of I/O and parse errors are left out. `panicked`
-- stands for a panic.
pub data ImmutableAuditError : Type 0 where
  io serialization panicked : ImmutableAuditError
  chain_broken : ℕ → Option Issue → ImmutableAuditError

pub record VerificationResult : Type 0 where
  pub valid : Bool
  pub entries_checked : ℕ
  pub first_invalid : Option ℕ
  pub issue : Option Issue

unfoldable pub pass : ℕ → VerificationResult
pass entries_checked = record {
  valid = true;
  entries_checked = entries_checked;
  first_invalid = none;
  issue = none;
}

unfoldable pub fail : ℕ → ℕ → Issue → VerificationResult
fail entries_checked first_invalid issue = record {
  valid = false;
  entries_checked = entries_checked;
  first_invalid = some first_invalid;
  issue = some issue;
}

module _ (hashing : Hashing Json) (quoted_bytes : String → List ℕ) where
  -- The loop of `verify_chain`.
  unfoldable pub verify_lines :
      List Line → ℕ → ℕ → String → Result ImmutableAuditError VerificationResult
  verify_lines [] checked expected previous = ok (pass checked)
  verify_lines (blank ∷ lines) checked expected previous =
      verify_lines lines checked expected previous
  verify_lines (garbled ∷ lines) checked expected previous = err serialization
  verify_lines (written e ∷ lines) checked expected previous =
      let count = u64 (checked + 1) in
      let rest = verify_lines lines count (u64 (expected + 1)) e.entry_hash in
      if not (nat_eqb e.sequence expected)
      then ok (fail count e.sequence (sequence_gap expected e.sequence))
      else if not (e.previous_hash == previous)
      then ok (fail count e.sequence (chain_mismatch previous e.previous_hash))
      else if not (verify_hash hashing quoted_bytes e)
      then ok (fail count e.sequence content_modified)
      else rest

  unfoldable pub verify_chain : List Line → Result ImmutableAuditError VerificationResult
  unfolding verify_lines
  verify_chain lines = verify_lines lines 0 1 ""

-- The next sequence number, the last hash, the last checkpoint and its cumulative hash.
pub record ChainState : Type 0 where
  pub next_sequence : ℕ
  pub last_hash : String
  pub last_checkpoint_seq : ℕ
  pub cumulative_hash : String

abbrev pub checkpoint_seq : ImmutableAuditEntry → ℕ → ℕ
checkpoint_seq e last = elim e.checkpoint [ none ↦ last | some c ↦ e.sequence ]

abbrev pub checkpoint_hash : ImmutableAuditEntry → String → String
checkpoint_hash e last = elim e.checkpoint [ none ↦ last | some c ↦ c.cumulative_hash ]

-- The loop of `load_chain_state`, from the last sequence number on.
unfoldable pub load_from :
    List Line → ℕ → String → ℕ → String → Result ImmutableAuditError ChainState
load_from [] last_sequence last_hash last_checkpoint_seq cumulative_hash = ok (record {
  next_sequence = u64 (last_sequence + 1);
  last_hash = last_hash;
  last_checkpoint_seq = last_checkpoint_seq;
  cumulative_hash = cumulative_hash;
})
load_from (blank ∷ lines) last_sequence last_hash last_checkpoint_seq cumulative_hash =
    load_from lines last_sequence last_hash last_checkpoint_seq cumulative_hash
load_from (garbled ∷ lines) last_sequence last_hash last_checkpoint_seq cumulative_hash =
    err serialization
load_from (written e ∷ lines) last_sequence last_hash last_checkpoint_seq cumulative_hash =
    load_from lines e.sequence e.entry_hash (checkpoint_seq e last_checkpoint_seq)
      (checkpoint_hash e cumulative_hash)

unfoldable pub load_chain_state : List Line → Result ImmutableAuditError ChainState
unfolding load_from
load_chain_state lines = load_from lines 0 "" 0 ""
