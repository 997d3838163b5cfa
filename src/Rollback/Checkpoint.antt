-- ===== src/Rollback/Checkpoint.antt =====
-- rollback/checkpoint.rs: snapshots of the state, with a bounded number of files. The directory is the list of the
-- checkpoint files in the order of their numbers, so that sorting the numbers changes nothing; the time is an
-- argument. `state` is the map in the order of its keys, and `healthy` says whether files can be
-- written and removed.
pub mod Latest
use project_whitequbit.Base.{
  ℕ, zero, suc, ◌+◌, ◌-◌, u64, String, Bool, true, false, Option, none, some, List, [], ◌∷◌, ◌++◌,
  Result, ok, err, length, max, reverse, text_key, ◌==◌, if◌then◌else◌,
}
use project_whitequbit.Base.Hash.{Hashing, le_bytes}
use project_whitequbit.Base.Sorted.{SortedMap, put, NumberedMap, put_at}
use project_whitequbit.Rollback.Journal.{RollbackError, io_error}

pub record Checkpoint : Type 0 where
  pub id : ℕ
  pub created_at : ℕ
  pub last_entry_id : ℕ
  pub state : SortedMap (List ℕ)
  pub checksum : String

unfoldable pub new_checkpoint : ℕ → ℕ → ℕ → Checkpoint
new_checkpoint id last_entry_id now = record {
  id = id;
  created_at = now;
  last_entry_id = last_entry_id;
  state = [];
  checksum = "";
}

unfoldable pub add_state : String → List ℕ → Checkpoint → Checkpoint
add_state key bytes c = record c { state = put key bytes c.state }

-- A file of the directory holds a checkpoint, or does not parse.
pub data CheckpointFile : Type 0 where
  garbled : CheckpointFile
  holding : Checkpoint → CheckpointFile

pub record CheckpointManager : Type 0 where
  pub files : NumberedMap CheckpointFile
  pub max_checkpoints : ℕ
  pub next_id : ℕ
  pub healthy : Bool

abbrev max_id : NumberedMap CheckpointFile → ℕ
max_id [] = 0
max_id ((id, f) ∷ files) = max id (max_id files)

unfoldable pub new_manager : NumberedMap CheckpointFile → Bool → CheckpointManager
new_manager files healthy = record {
  files = files;
  max_checkpoints = 5;
  next_id = u64 (max_id files + 1);
  healthy = healthy;
}

unfoldable pub with_max_checkpoints : ℕ → CheckpointManager → CheckpointManager
with_max_checkpoints n m = record m { max_checkpoints = n }

unfoldable pub save_checkpoint :
    Checkpoint → CheckpointManager → CheckpointManager × Result RollbackError (Unit {0})
save_checkpoint c m =
    if m.healthy
    then (record m { files = put_at c.id (holding c) m.files }, ok tt)
    else (m, err io_error)

-- The loop of `cleanup_old_checkpoints`, for the number of files that are too many: the first goes.
abbrev pub drop_oldest : ℕ → NumberedMap CheckpointFile → NumberedMap CheckpointFile
drop_oldest zero files = files
drop_oldest (suc n) [] = []
drop_oldest (suc n) (f ∷ files) = drop_oldest n files

-- A file that cannot be removed stays.
unfoldable pub cleanup_old_checkpoints : CheckpointManager → CheckpointManager
cleanup_old_checkpoints m =
    if m.healthy
    then record m { files = drop_oldest (length m.files - m.max_checkpoints) m.files }
    else m

abbrev pub cleaned :
    Checkpoint
    → CheckpointManager × Result RollbackError (Unit {0})
    → CheckpointManager × Result RollbackError Checkpoint
cleaned c (m, err e) = (m, err e)
cleaned c (m, ok _) = (cleanup_old_checkpoints m, ok c)

module _ (hashing : Hashing (List ℕ)) where
  open hashing use {digest, text_bytes, time_bytes}

  abbrev state_bytes : SortedMap (List ℕ) → List ℕ
  state_bytes [] = []
  state_bytes ((key, bytes) ∷ m) = text_bytes key ++ (bytes ++ state_bytes m)

  unfoldable pub checkpoint_checksum : Checkpoint → String
  checkpoint_checksum c = digest (
      le_bytes 8 c.id
      ++ (le_bytes 8 c.last_entry_id ++ (time_bytes c.created_at ++ state_bytes c.state)))

  unfoldable pub finalize : Checkpoint → Checkpoint
  unfolding checkpoint_checksum
  finalize c = record c { checksum = checkpoint_checksum c }

  unfoldable pub verify_checkpoint : Checkpoint → Bool
  verify_checkpoint c = checkpoint_checksum c == c.checksum

  -- `create_checkpoint`, with what the collector does to the new checkpoint; its number stays.
  unfoldable pub create_checkpoint :
      ℕ
      → (Checkpoint → Checkpoint)
      → ℕ
      → CheckpointManager
      → CheckpointManager × Result RollbackError Checkpoint
  unfolding finalize save_checkpoint cleanup_old_checkpoints new_checkpoint
  create_checkpoint last_entry_id collect now m =
      let c = finalize (collect (new_checkpoint m.next_id last_entry_id now)) in
      cleaned c (save_checkpoint c (record m { next_id = u64 (m.next_id + 1) }))

  abbrev pub if_verified : CheckpointFile → Option Checkpoint → Option Checkpoint
  if_verified garbled older = older
  if_verified (holding c) older = if verify_checkpoint c then some c else older

  -- The loop of `load_latest`, over the files with the greatest number first.
  unfoldable pub first_verified : NumberedMap CheckpointFile → Option Checkpoint
  unfolding verify_checkpoint
  first_verified [] = none
  first_verified ((id, f) ∷ files) = if_verified f (first_verified files)

  unfoldable pub load_latest : CheckpointManager → Option Checkpoint
  unfolding first_verified
  load_latest m = first_verified (reverse m.files)
