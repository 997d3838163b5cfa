-- ===== src/Rollback/Journal.antt =====
-- rollback/journal.rs: the write-ahead log of actions. The file is its lines as `serde_json` reads
-- them; `healthy` says whether a write succeeds in all its steps at this time; when an append
-- fails, `leaves_line` says whether it fails only at `sync_all`, with the line in the file. `D` is the type of JSON values. Times are numbers.
pub mod Durability
pub mod Compaction
use project_whitequbit.Base.{
  ℕ, ◌+◌, ◌-◌, String, Bool, true, false, Option, none, some, List, [], ◌∷◌, ◌++◌, max, ltb, leb,
  nat_eqb, not, ◌||◌, if◌then◌else◌, u64, Result, ok, err, length, keep, map, number_key, text_key,
  ◌==◌, is_empty,
}
use project_whitequbit.Base.Hash.{Hashing, le_bytes}
use project_whitequbit.Base.Map
use project_whitequbit.Base.Map.{Map, values}

pub data JournalEntryState : Type 0 where
  prepared committed rolled_back rollback_failed : JournalEntryState

-- `state as u8`
abbrev pub state_byte : JournalEntryState → ℕ
state_byte prepared = 0
state_byte committed = 1
state_byte rolled_back = 2
state_byte rollback_failed = 3

abbrev pub is_prepared : JournalEntryState → Bool
is_prepared prepared = true
is_prepared _ = false

-- `Committed` or `RolledBack`
abbrev pub is_finished : JournalEntryState → Bool
is_finished committed = true
is_finished rolled_back = true
is_finished _ = false

-- The I/O error carries no value here, and the missing entry its identifier.
pub data RollbackError : Type 0 where
  io_error : RollbackError
  entry_not_found : ℕ → RollbackError

pub record JournalEntry (D : Type 0) : Type 0 where
  pub id : ℕ
  pub action_id : String
  pub action_type : String
  pub state : JournalEntryState
  pub action_data : D
  pub compensation_data : D
  pub created_at : ℕ
  pub updated_at : ℕ
  pub checksum : String

pub data Line (D : Type 0) : Type 0 where
  blank garbled : Line D
  logged : JournalEntry D → Line D

pub record Journal (D : Type 0) : Type 0 where
  pub lines : List (Line D)
  pub entries : Map ℕ (JournalEntry D)
  pub next_id : ℕ
  pub healthy : Bool
  pub leaves_line : Bool

pub record UncommittedEntry (D : Type 0) : Type 0 where
  pub id : ℕ
  pub action_id : String
  pub action_type : String
  pub compensation_data : D

module _ {D : Type 0} where
  unfoldable pub append_entry :
      JournalEntry D → Journal D → Journal D × Result RollbackError (Unit {0})
  append_entry e j =
      let longer = record j { lines = j.lines ++ logged e ∷ [] } in
      if j.healthy then (longer, ok tt) else (if j.leaves_line then longer else j, err io_error)

module _ {D : Type 0} (hashing : Hashing D) where
  open hashing use {digest, text_bytes, data_bytes, time_bytes}

  unfoldable pub compute_checksum : JournalEntry D → String
  compute_checksum e = digest (
      le_bytes 8 e.id
      ++ (text_bytes e.action_id
          ++ (text_bytes e.action_type
              ++ (state_byte e.state
                  ∷ (data_bytes e.action_data
                      ++ (data_bytes e.compensation_data ++ time_bytes e.created_at))))))

  unfoldable pub verify : JournalEntry D → Bool
  verify e = e.checksum == compute_checksum e

  unfoldable pub new_entry : ℕ → String → String → D → D → ℕ → JournalEntry D
  new_entry id action_id action_type action_data compensation_data now =
      let entry : JournalEntry D = record {
        id = id;
        action_id = action_id;
        action_type = action_type;
        state = prepared;
        action_data = action_data;
        compensation_data = compensation_data;
        created_at = now;
        updated_at = now;
        checksum = "";
      } in
      record entry { checksum = compute_checksum entry }

  -- `JournalEntry::commit`, `rollback` and `rollback_failed` differ in the state.
  unfoldable pub set_state : JournalEntryState → ℕ → JournalEntry D → JournalEntry D
  set_state state now e =
      let changed = record e { state = state; updated_at = now } in
      record changed { checksum = compute_checksum changed }

  -- One round of the loop of `load`: a line that is empty, does not parse or fails its checksum is
  -- passed over.
  unfoldable pub load_line : Line D → Map ℕ (JournalEntry D) × ℕ → Map ℕ (JournalEntry D) × ℕ
  load_line (logged e) (m, max_id) =
      if verify e then (Map.insert e.id e m, max max_id e.id) else (m, max_id)
  load_line _ s = s

  unfoldable pub load_lines :
      List (Line D) → Map ℕ (JournalEntry D) × ℕ → Map ℕ (JournalEntry D) × ℕ
  unfolding load_line
  load_lines [] s = s
  load_lines (line ∷ rest) s = load_lines rest (load_line line s)

  -- `Journal::new` on the lines of its file; a file that is not there has none.
  unfoldable pub open_journal : List (Line D) → Journal D
  unfolding load_lines
  open_journal lines =
      let (entries, max_id) = load_lines lines ([], 0) in
      record {
        lines = lines;
        entries = entries;
        next_id = u64 (max_id + 1);
        healthy = true;
        leaves_line = false;
      }

  -- The identifier is taken first; memory follows the file.
  unfoldable pub prepare :
      String → String → D → D → ℕ → Journal D → Journal D × Result RollbackError ℕ
  prepare action_id action_type action_data compensation_data now j =
      let entry = new_entry j.next_id action_id action_type action_data compensation_data now in
      let (j', r) = append_entry entry (record j { next_id = u64 (j.next_id + 1) }) in
      elim r [
        | err e ↦ (j', err e)
        | ok _ ↦ (record j' { entries = Map.insert j.next_id entry j.entries }, ok j.next_id)
      ]

  -- `commit`, `mark_rolled_back` and `mark_rollback_failed`: memory changes before the file.
  unfoldable pub mark :
      JournalEntryState → ℕ → ℕ → Journal D → Journal D × Result RollbackError (Unit {0})
  mark state id now j = elim (Map.get id j.entries) [
    | none ↦ (j, err (entry_not_found id))
    | some e ↦
        let e' = set_state state now e in
        append_entry e' (record j { entries = Map.insert id e' j.entries })
  ]

  unfoldable pub commit : ℕ → ℕ → Journal D → Journal D × Result RollbackError (Unit {0})
  unfolding mark
  commit = mark committed

  unfoldable pub mark_rolled_back : ℕ → ℕ → Journal D → Journal D × Result RollbackError (Unit {0})
  unfolding mark
  mark_rolled_back = mark rolled_back

  unfoldable pub mark_rollback_failed :
      ℕ → ℕ → Journal D → Journal D × Result RollbackError (Unit {0})
  unfolding mark
  mark_rollback_failed = mark rollback_failed

module _ {D : Type 0} where
  abbrev pub uncommitted_of : JournalEntry D → UncommittedEntry D
  uncommitted_of e = record {
    id = e.id;
    action_id = e.action_id;
    action_type = e.action_type;
    compensation_data = e.compensation_data;
  }

  unfoldable pub get_uncommitted : Journal D → List (UncommittedEntry D)
  get_uncommitted j = map uncommitted_of (keep (λ e. is_prepared e.state) (values j.entries))

  -- `sorted_by_key` on the time of the last update; the sort is stable.
  unfoldable pub insert_by_update : JournalEntry D → List (JournalEntry D) → List (JournalEntry D)
  insert_by_update e [] = e ∷ []
  insert_by_update e (x ∷ xs) =
      let later = insert_by_update e xs in
      if leb e.updated_at x.updated_at then e ∷ x ∷ xs else x ∷ later

  unfoldable pub sort_by_update : List (JournalEntry D) → List (JournalEntry D)
  unfolding insert_by_update
  sort_by_update [] = []
  sort_by_update (e ∷ es) = insert_by_update e (sort_by_update es)

  abbrev take : ℕ → List (JournalEntry D) → List (JournalEntry D)
  take n [] = []
  take n (e ∷ es) = if nat_eqb n 0 then [] else e ∷ take (n - 1) es

  -- The finished entries but the most recent ones; `truncate` and `clear` are the branches.
  unfoldable pub to_remove : Journal D → ℕ → List (JournalEntry D)
  unfolding sort_by_update
  to_remove j keep_last =
      let finished = sort_by_update (keep (λ e. is_finished e.state) (values j.entries)) in
      if ltb keep_last (length finished) then take (length finished - keep_last) finished else []

  unfoldable pub remove_all :
      List (JournalEntry D) → Map ℕ (JournalEntry D) → Map ℕ (JournalEntry D)
  remove_all [] m = m
  remove_all (e ∷ es) m = remove_all es (Map.remove e.id m)

  -- The file is rewritten only when something was removed.
  unfoldable pub compact : ℕ → Journal D → Journal D × Result RollbackError ℕ
  unfolding to_remove remove_all
  compact keep_last j =
      let removed = to_remove j keep_last in
      let j' = record j { entries = remove_all removed j.entries } in
      if is_empty removed
      then (j', ok 0)
      else if j.healthy
      then (record j' { lines = map logged (values j'.entries) }, ok (length removed))
      else (j', err io_error)
