-- ===== src/Audit/Integrity.antt =====
-- audit/integrity.rs: verifying a log file by its hash chain. The file is its lines; one that is not
-- there has none. The texts of an issue are the constructors of a type.
pub mod Chain
use project_whitequbit.Base.{
  ℕ, ◌+◌, ◌-◌, u64, String, Bool, true, false, Option, none, some, List, [], ◌∷◌, ◌++◌, Result, ok,
  err, ltb, nat_eqb, not, if◌then◌else◌, text_key, ◌==◌, is_some,
}
use project_whitequbit.Base.Hash.{Hashing}
use project_whitequbit.Audit.Entry.{Json, AuditEntry, AuditError, serialization, verify}
use project_whitequbit.Audit.Sink.{Line, blank, garbled, written}

pub data Issue : Type 0 where
  sequence_mismatch : ℕ → ℕ → Issue
  hash_chain_broken entry_hash_mismatch : Issue

pub record VerificationResult : Type 0 where
  pub valid : Bool
  pub entries_checked : ℕ
  pub first_invalid : Option ℕ
  pub issue : Option Issue

unfoldable pub pass : ℕ → VerificationResult
pass entries_checked = record {
  valid = true;
  entries_checked = entries_checked;
  first_invalid = none;
  issue = none;
}

unfoldable pub fail : ℕ → ℕ → Issue → VerificationResult
fail entries_checked first_invalid issue = record {
  valid = false;
  entries_checked = entries_checked;
  first_invalid = some first_invalid;
  issue = some issue;
}

module _ (hashing : Hashing Json) where
  -- The loop of `verify_file`: the entries checked, the next sequence number and the last hash.
  unfoldable pub verify_from : List Line → ℕ → ℕ → String → Result AuditError VerificationResult
  verify_from [] checked expected previous = ok (pass checked)
  verify_from (blank ∷ lines) checked expected previous =
      verify_from lines checked expected previous
  verify_from (garbled ∷ lines) checked expected previous = err serialization
  verify_from (written e ∷ lines) checked expected previous =
      let count = u64 (checked + 1) in
      let rest = verify_from lines count (u64 (expected + 1)) e.hash in
      if not (nat_eqb e.sequence expected)
      then ok (fail count e.sequence (sequence_mismatch expected e.sequence))
      else if not (e.previous_hash == previous)
      then ok (fail count e.sequence hash_chain_broken)
      else if not (verify hashing e)
      then ok (fail count e.sequence entry_hash_mismatch)
      else rest

  unfoldable pub verify_file : List Line → Result AuditError VerificationResult
  unfolding verify_from
  verify_file lines = verify_from lines 0 1 ""

-- The loop of `find_gaps`, with the gaps found and the next sequence number.
unfoldable pub gaps_from : List Line → List (ℕ × ℕ) → ℕ → Result AuditError (List (ℕ × ℕ))
gaps_from [] gaps expected = ok gaps
gaps_from (blank ∷ lines) gaps expected = gaps_from lines gaps expected
gaps_from (garbled ∷ lines) gaps expected = err serialization
gaps_from (written e ∷ lines) gaps expected =
    gaps_from lines
      (if ltb expected e.sequence then gaps ++ (expected, e.sequence - 1) ∷ [] else gaps)
      (u64 (e.sequence + 1))

unfoldable pub find_gaps : List Line → Result AuditError (List (ℕ × ℕ))
unfolding gaps_from
find_gaps lines = gaps_from lines [] 1

pub record AuditStats : Type 0 where
  pub total_entries : ℕ
  pub first_entry : Option ℕ
  pub last_entry : Option ℕ
  pub last_sequence : ℕ

-- The loop of `get_stats`.
unfoldable pub stats_from : List Line → AuditStats → Result AuditError AuditStats
stats_from [] s = ok s
stats_from (blank ∷ lines) s = stats_from lines s
stats_from (garbled ∷ lines) s = err serialization
stats_from (written e ∷ lines) s = stats_from lines (record {
  total_entries = u64 (s.total_entries + 1);
  first_entry = if is_some s.first_entry then s.first_entry else some e.timestamp;
  last_entry = some e.timestamp;
  last_sequence = e.sequence;
})

unfoldable pub get_stats : List Line → Result AuditError AuditStats
unfolding stats_from
get_stats lines =
    stats_from lines
      (record { total_entries = 0; first_entry = none; last_entry = none; last_sequence = 0 })
