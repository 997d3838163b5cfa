-- ===== src/Observability/Versioning/Store.antt =====
-- observability/versioning.rs: the store of versions, with its file. A refused write leaves the file as it was.
pub mod Repeat
pub mod Chain
use project_whitequbit.Base.{
  ℕ, ◌+◌, u64, String, Bool, true, false, Option, none, some, List, [], ◌∷◌, ◌++◌, Result, ok, err,
  max, all, ◌&&◌, text_key, ◌==◌, if◌then◌else◌,
}
use project_whitequbit.Base.Hash.{Hashing}
use project_whitequbit.Observability.Versioning.Version.{
  VersionHash, genesis_hash, VersionChangeType, VersionMetadata, SecurityVersion, Clock,
  new_version, verify_version,
}
use project_whitequbit.Observability.Versioning.History.{
  VersionHistory, empty_history, push_version, latest, history_chained,
}

pub data VersionJournalOp : Type 0 where
  version_created : SecurityVersion → VersionJournalOp
  checkpoint : ℕ → VersionHash → ℕ → VersionJournalOp

pub data Line : Type 0 where
  blank malformed : Line
  written : VersionJournalOp → Line

-- The errors that the modelled code raises.
pub data VersioningError : Type 0 where
  io_error subscriber_error : VersioningError

-- `present` says whether the file is there.
pub record VersionStore : Type 0 where
  pub lines : List Line
  pub present : Bool
  pub healthy : Bool
  pub next_sequence : ℕ
  pub history : VersionHistory
  pub total_versions : ℕ

abbrev Recovered : Type 0
Recovered = VersionHistory × ℕ × ℕ

-- The loop of `recover`: the history, the greatest number, and the count of the versions.
unfoldable pub recover_lines : List Line → Recovered → Recovered
unfolding push_version
recover_lines [] s = s
recover_lines (blank ∷ lines) s = recover_lines lines s
recover_lines (malformed ∷ lines) s = recover_lines lines s
recover_lines (written (version_created v) ∷ lines) (h, max_sequence, count) =
    recover_lines lines (push_version v h, max max_sequence v.sequence, u64 (count + 1))
recover_lines (written (checkpoint sequence hash total) ∷ lines) (h, max_sequence, count) =
    recover_lines lines (h, max max_sequence sequence, count)

-- `VersionStore::new` on a file.
unfoldable pub open_store : List Line → Bool → Bool → ℕ → VersionStore
unfolding recover_lines empty_history
open_store lines present healthy history_size =
    let (h, max_sequence, count) = recover_lines lines (empty_history history_size, 0, 0) in
    let fresh : VersionStore = record {
      lines = lines;
      present = present;
      healthy = healthy;
      next_sequence = 0;
      history = empty_history history_size;
      total_versions = 0;
    } in
    if present
    then record fresh {
      next_sequence = u64 (max_sequence + 1);
      history = h;
      total_versions = count;
    }
    else fresh

unfoldable pub write_version_op :
    VersionJournalOp → VersionStore → VersionStore × Result VersioningError (Unit {0})
write_version_op op s =
    if s.healthy
    then (record s { lines = s.lines ++ written op ∷ []; present = true }, ok tt)
    else (s, err io_error)

-- The hash of the latest version, or that of the beginning.
abbrev pub parent_of : Option SecurityVersion → VersionHash
parent_of none = genesis_hash
parent_of (some v) = v.version_hash

abbrev pub with_metadata : Option VersionMetadata → SecurityVersion → SecurityVersion
with_metadata none v = v
with_metadata (some m) v = record v { metadata = m }

abbrev pub is_same : VersionHash → Option SecurityVersion → Bool
is_same content_hash none = false
is_same content_hash (some v) = v.content_hash == content_hash

-- What is asked for with a version.
pub record Change : Type 0 where
  pub content_hash : VersionHash
  pub change_summary : String
  pub change_type : VersionChangeType
  pub metadata : Option VersionMetadata

abbrev pub kept :
    SecurityVersion
    → VersionStore × Result VersioningError (Unit {0})
    → VersionStore × Result VersioningError SecurityVersion
kept v (s, err x) = (s, err x)
kept v (s, ok _) = (
  record s { history = push_version v s.history; total_versions = u64 (s.total_versions + 1) },
  ok v,
)

abbrev pub unchanged_or :
    Bool
    → Option SecurityVersion
    → VersionStore
    → VersionStore × Result VersioningError SecurityVersion
    → VersionStore × Result VersioningError SecurityVersion
unchanged_or true (some v) s other = (s, ok v)
unchanged_or true none s other = other
unchanged_or false l s other = other

module _ {D : Type 0} (hashing : Hashing D) where
  abbrev pub next_created : Change → Clock → VersionStore → SecurityVersion
  next_created c clock s = with_metadata c.metadata (
      new_version hashing s.next_sequence c.content_hash (parent_of (latest s.history))
        c.change_summary c.change_type clock)

  unfoldable pub create_version :
      Change → Clock → VersionStore → VersionStore × Result VersioningError SecurityVersion
  unfolding new_version write_version_op push_version genesis_hash latest
  create_version c clock s =
      let taken = record s { next_sequence = u64 (s.next_sequence + 1) } in
      let v = next_created c clock s in
      unchanged_or (is_same c.content_hash (latest s.history)) (latest s.history) taken
        (kept v (write_version_op (version_created v) taken))

  unfoldable pub write_checkpoint : VersionStore → VersionStore × Result VersioningError (Unit {0})
  unfolding write_version_op latest
  write_checkpoint s = elim (latest s.history) [
    | none ↦ (s, ok tt)
    | some v ↦ write_version_op (checkpoint v.sequence v.version_hash s.total_versions) s
  ]

  unfoldable pub verify_integrity : VersionStore → Bool
  unfolding verify_version
  verify_integrity s = history_chained s.history && all (verify_version hashing) s.history.versions

unfoldable pub current_version : VersionStore → Option SecurityVersion
current_version s = latest s.history
