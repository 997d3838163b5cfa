-- ===== src/Audit/Immutable/Log.antt =====
-- audit/immutable.rs: the logger and its appends. A write goes through three phases, each of which the file
-- system may refuse: the write-ahead file is filled, the log file grows, the write-ahead file is
-- emptied. The counters of bytes and of latency are left out.
pub mod Chained
pub mod Refused
use project_whitequbit.Base.{
  ℕ, ◌+◌, ◌-◌, ◌%◌, u64, u64_mod, String, Bool, true, false, Option, none, some, List, [], ◌∷◌,
  ◌++◌, Result, ok, err, length, leb, ltb, is_empty, ◌&&◌, if◌then◌else◌,
}
use project_whitequbit.Base.Hash.{Hashing}
use project_whitequbit.Audit.Entry.{Json}
use project_whitequbit.Audit.Immutable.Entry.{
  ImmutableAuditEntry, CheckpointData, checkpoints, info, success, system_actor, compute_hash,
}
use project_whitequbit.Audit.Immutable.Builder.{AuditEntryBuilder, build_entry, rehash}
use project_whitequbit.Audit.Immutable.Merkle.{compute_merkle_root}
use project_whitequbit.Audit.Immutable.Verify.{Line, written, ImmutableAuditError, io, panicked}
use project_whitequbit.Audit.Immutable.Wal
use project_whitequbit.Audit.Immutable.Wal.{WalLine, Encoding}

-- The paths are left out.
pub record ImmutableAuditConfig : Type 0 where
  pub checkpoint_interval : ℕ
  pub verify_on_startup : Bool
  pub memory_cache_size : ℕ

unfoldable pub default_config : ImmutableAuditConfig
default_config = record {
  checkpoint_interval = 1000;
  verify_on_startup = true;
  memory_cache_size = 100;
}

unfoldable pub with_checkpoint_interval : ℕ → ImmutableAuditConfig → ImmutableAuditConfig
with_checkpoint_interval interval c = record c { checkpoint_interval = interval }

pub record LoggerState : Type 0 where
  pub next_sequence : ℕ
  pub last_hash : String
  pub last_checkpoint_seq : ℕ
  pub cumulative_hash : String
  pub hashes_since_checkpoint : List String
  pub recent_entries : List ImmutableAuditEntry

pub record AuditMetrics : Type 0 where
  pub entries_written : ℕ
  pub checkpoints_created : ℕ
  pub wal_recoveries : ℕ

-- `poisoned` says whether a call panicked while it held the locks; every later call then panics.
pub record ImmutableAuditLogger : Type 0 where
  pub config : ImmutableAuditConfig
  pub lines : List Line
  pub wal : List WalLine
  pub state : LoggerState
  pub metrics : AuditMetrics
  pub poisoned : Bool

-- Which phases of a write the file system takes. A line that reaches the log file and is not synced counts
-- as a write that was taken, followed by a refusal to empty the write-ahead file.
pub record Faults : Type 0 where
  pub wal_ok : Bool
  pub log_ok : Bool
  pub commit_ok : Bool

-- What comes from outside with a write: the identifier, the time, and the file system's answers.
pub record Writing : Type 0 where
  pub entry_id : String
  pub now : ℕ
  pub faults : Faults

abbrev pub Outcome : Type 0 → Type 0
Outcome A = ImmutableAuditLogger × Result ImmutableAuditError A

abbrev u64_sub : ℕ → ℕ → ℕ
u64_sub a b = (a + u64_mod - b) % u64_mod

-- `remove(0)` where the cache is full, which panics on an empty cache.
abbrev pub has_room : ImmutableAuditConfig → List ImmutableAuditEntry → Bool
has_room config recent = ltb (length recent) config.memory_cache_size

abbrev drop_first : List ImmutableAuditEntry → List ImmutableAuditEntry
drop_first [] = []
drop_first (e ∷ es) = es

abbrev pub cannot_push : ImmutableAuditConfig → List ImmutableAuditEntry → Bool
cannot_push config recent = leb config.memory_cache_size 0 && is_empty recent

abbrev pub push_recent :
    ImmutableAuditConfig → ImmutableAuditEntry → List ImmutableAuditEntry → List ImmutableAuditEntry
push_recent config e recent =
    (if has_room config recent then recent else drop_first recent) ++ e ∷ []

abbrev pub entries_since : LoggerState → ℕ
entries_since s = u64_sub (u64_sub s.next_sequence s.last_checkpoint_seq) 1

abbrev pub answer : ImmutableAuditEntry → Outcome (Unit {0}) → Outcome ImmutableAuditEntry
answer e (l, err x) = (l, err x)
answer e (l, ok _) = (l, ok e)

module _ (hashing : Hashing Json) (quoted_bytes : String → List ℕ) (encoding : Encoding) where
  open hashing use {digest, text_bytes}

  -- The three phases, as both kinds of entry go through them.
  unfoldable pub write_entry :
      Faults → ImmutableAuditEntry → ImmutableAuditLogger → Outcome (Unit {0})
  write_entry faults e l =
      let prepared = record l { wal = Wal.prepare encoding e } in
      let logged = record prepared { lines = l.lines ++ written e ∷ [] } in
      if faults.wal_ok
      then (if faults.log_ok
          then (if faults.commit_ok then (record logged { wal = [] }, ok tt) else (logged, err io))
          else (prepared, err io))
      else (l, err io)

  unfoldable pub accumulate : String → String → String
  accumulate cumulative_hash entry_hash =
      digest (text_bytes cumulative_hash ++ text_bytes entry_hash)

  unfoldable pub checkpoint_entry :
      ℕ → ℕ → String → List String → Writing → LoggerState → ImmutableAuditEntry
  checkpoint_entry entries_since prev_checkpoint_seq cumulative_hash hashes w s =
      rehash hashing quoted_bytes (record {
        sequence = s.next_sequence;
        entry_id = w.entry_id;
        timestamp = w.now;
        category = checkpoints;
        severity = info;
        event_type = "checkpoint";
        actor = system_actor;
        target = none;
        outcome = success;
        state_transition = record { before = none; after = none };
        metadata = [];
        previous_hash = s.last_hash;
        entry_hash = "";
        checkpoint = some (record {
          entries_since_last = entries_since;
          cumulative_hash = cumulative_hash;
          merkle_root = compute_merkle_root hashing hashes;
          previous_checkpoint_seq = prev_checkpoint_seq;
        });
      })

  -- The state after a checkpoint is written.
  abbrev pub checkpointed : ImmutableAuditEntry → LoggerState → LoggerState
  checkpointed e s = record s {
    last_checkpoint_seq = e.sequence;
    hashes_since_checkpoint = [];
    last_hash = e.entry_hash;
    next_sequence = u64 (s.next_sequence + 1);
    cumulative_hash = accumulate s.cumulative_hash e.entry_hash;
  }

  unfoldable pub create_checkpoint :
      ℕ → ℕ → String → List String → Writing → ImmutableAuditLogger → Outcome (Unit {0})
  create_checkpoint entries_since prev_checkpoint_seq cumulative_hash hashes w l =
      let e = checkpoint_entry entries_since prev_checkpoint_seq cumulative_hash hashes w l.state in
      let (l', r) = write_entry w.faults e l in
      elim r [
        | err x ↦ (l', err x)
        | ok _ ↦ (
          record l' {
            state = checkpointed e l.state;
            metrics = record l.metrics {
              checkpoints_created = u64 (l.metrics.checkpoints_created + 1);
            };
          },
          ok tt,
        )
      ]

  -- No other call stands between the reading of the state and the checkpoint here.
  unfoldable pub maybe_checkpoint : Writing → ImmutableAuditLogger → Outcome (Unit {0})
  maybe_checkpoint w l =
      if ltb (entries_since l.state) l.config.checkpoint_interval
      then (l, ok tt)
      else create_checkpoint (entries_since l.state) l.state.last_checkpoint_seq
          l.state.cumulative_hash l.state.hashes_since_checkpoint w l

  -- The state after an entry is written.
  abbrev pub appended : ImmutableAuditConfig → ImmutableAuditEntry → LoggerState → LoggerState
  appended config e s = record s {
    hashes_since_checkpoint = s.hashes_since_checkpoint ++ e.entry_hash ∷ [];
    last_hash = e.entry_hash;
    next_sequence = u64 (s.next_sequence + 1);
    cumulative_hash = accumulate s.cumulative_hash e.entry_hash;
    recent_entries = push_recent config e s.recent_entries;
  }

  -- `append` once the entry is written.
  unfoldable pub after_write :
      ImmutableAuditEntry → Writing → ImmutableAuditLogger → Outcome ImmutableAuditEntry
  after_write e w l =
      let l' = record l {
        state = appended l.config e l.state;
        metrics = record l.metrics { entries_written = u64 (l.metrics.entries_written + 1) };
      } in
      if cannot_push l.config l.state.recent_entries
      then (
        record l' {
          state = record l'.state { recent_entries = [] };
          metrics = l.metrics;
          poisoned = true;
        },
        err panicked,
      )
      else answer e (maybe_checkpoint w l')

  -- `append` once the locks are held.
  unfoldable pub append_locked :
      AuditEntryBuilder → Writing → Writing → ImmutableAuditLogger → Outcome ImmutableAuditEntry
  append_locked b w w_checkpoint l =
      let e =
        build_entry hashing quoted_bytes b w.entry_id w.now l.state.next_sequence
          l.state.last_hash in
      let (l', r) = write_entry w.faults e l in
      elim r [ err x ↦ (l', err x) | ok _ ↦ after_write e w_checkpoint l' ]

  unfoldable pub append :
      AuditEntryBuilder → Writing → Writing → ImmutableAuditLogger → Outcome ImmutableAuditEntry
  append b w w_checkpoint l =
      if l.poisoned then (l, err panicked) else append_locked b w w_checkpoint l
