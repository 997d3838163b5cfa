-- ===== src/Tests/Immutable.antt =====
-- audit/immutable.rs on concrete inputs.
use project_whitequbit.Base.{
  ℕ, ◌+◌, ◌≡◌, refl, u64, Bool, true, false, none, List, [], ◌∷◌, ok, ltb, arith, text_key, ◌==◌,
  length, String, if◌then◌else◌,
}
use project_whitequbit.Base.Hash.{Hashing}
use project_whitequbit.Audit.Entry.{Json, null}
use project_whitequbit.Audit.Immutable.Builder.{new_builder, add_metadata}
use project_whitequbit.Audit.Immutable.Merkle.{build, compute_merkle_root}
use project_whitequbit.Audit.Immutable.Merkle.Levels.{build_ends}
use project_whitequbit.Audit.Immutable.Verify.{pass, verify_chain}
use project_whitequbit.Audit.Immutable.Verify.Chain.{entries, genesis, is_valid}
use project_whitequbit.Audit.Immutable.Wal.{Encoding}
use project_whitequbit.Audit.Immutable.Log.{
  ImmutableAuditConfig, ImmutableAuditLogger, Writing, append, append_locked, write_entry,
  after_write, maybe_checkpoint, create_checkpoint, checkpoint_entry,
}
use project_whitequbit.Audit.Immutable.Log.Chained.{Request, append_all, append_all-Verified}
use project_whitequbit.Audit.Immutable.Log.Refused.{after_append, refused_append_breaks}
use project_whitequbit.Audit.Immutable.Open.{fresh_logger}

abbrev total : List ℕ → ℕ
total [] = 0
total (n ∷ ns) = n + total ns

abbrev hashing : Hashing Json
hashing = record {
  digest = λ bs. if ltb 100 (total bs) then "large" else "small";
  text_bytes = λ s. if s == "" then [] else 7 ∷ [];
  data_bytes = λ d. 3 ∷ [];
  time_bytes = λ n. n ∷ [];
}

abbrev quoted_bytes : String → List ℕ
quoted_bytes s = 9 ∷ []

abbrev encoding : Encoding
encoding = record { to_json = λ e. "{}"; from_json = λ s. none; crc = λ s. 4 }

abbrev config : ImmutableAuditConfig
config = record { checkpoint_interval = 2; verify_on_startup = true; memory_cache_size = 2 }

abbrev fresh : ImmutableAuditLogger
fresh = fresh_logger config [] genesis 0 []

abbrev writing : ℕ → Bool → Bool → Writing
writing now log_ok commit_ok = record {
  entry_id = "id";
  now = now;
  faults = record { wal_ok = true; log_ok = log_ok; commit_ok = commit_ok };
}

abbrev request : ℕ → Bool → Bool → Request
request now log_ok commit_ok = record {
  builder = add_metadata "k" null (new_builder "e");
  writing = writing now log_ok commit_ok;
  checkpointing = writing now true true;
}

abbrev requests : List Request
requests =
    request 1 true true ∷ request 50 false true ∷ request 60 true true ∷ request 99 true true ∷ []

abbrev logger_after : ImmutableAuditLogger
logger_after = append_all hashing quoted_bytes encoding requests fresh

-- Three entries and a checkpoint after the second of them.
checkpoint_is_written :
    (entries logger_after.lines ≡ 4) × (logger_after.state.last_checkpoint_seq ≡ 3)
unfolding append append_locked write_entry after_write maybe_checkpoint create_checkpoint
    checkpoint_entry
checkpoint_is_written = (refl, refl)

append_all-Verified_example :
    verify_chain hashing quoted_bytes logger_after.lines
    ≡ ok (pass (u64 (entries logger_after.lines)))
append_all-Verified_example =
    (append_all-Verified hashing quoted_bytes encoding requests fresh
      ((refl, refl), ((refl, refl), ((refl, refl), ((refl, refl), tt)))) (tt, (refl, refl, refl))).0

refused_append_breaks_example :
    is_valid (
      verify_chain hashing quoted_bytes
        (after_append hashing quoted_bytes encoding
          (request 2 true true)
          (after_append hashing quoted_bytes encoding (request 1 true false) fresh).0).0.lines)
    ≡ false
refused_append_breaks_example =
    (refused_append_breaks hashing quoted_bytes encoding (request 1 true false)
      (request 2 true true) fresh refl (refl, refl, refl) (refl, refl, refl)).2

abbrev hashes : List String
hashes = "a" ∷ "b" ∷ "c" ∷ "d" ∷ "e" ∷ []

build_ends_example :
    (length (build hashing 5 hashes) ≡ 1) × (build hashing 7 hashes ≡ build hashing 5 hashes)
build_ends_example = build_ends hashing 7 hashes (omega arith)

root_of_none : compute_merkle_root hashing [] ≡ ""
unfolding compute_merkle_root
root_of_none = refl
