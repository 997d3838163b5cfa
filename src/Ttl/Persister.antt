-- ===== src/Ttl/Persister.antt =====
-- firewall/ttl.rs: `TtlPersister`, the append-only log of TTL operations and its replay. The file
-- is its lines; a missing file reads as one without lines. `healthy` says whether a
-- write succeeds in all its steps at this time; when an append fails, `leaves_line` says whether it
-- fails only at `sync_all`, with the line in the file.
pub mod Keys
pub mod Replay
use project_whitequbit.Base.{
  ℕ, ◌+◌, ◌-◌, Bool, true, false, Option, none, some, List, [], ◌∷◌, ◌++◌, max, ltb, leb,
  if◌then◌else◌, u64, Result, ok, err, ◌>>=◌, text_key,
}
use project_whitequbit.Base.Map
use project_whitequbit.Base.Map.{Map, values}
use project_whitequbit.Ttl.Entry.{
  RuleId, TtlError, io_error, serialization_error, TtlState, TtlEntry,
}

pub data TtlLogOp : Type 0 where
  register : TtlEntry → TtlLogOp
  update : RuleId → TtlState → ℕ → TtlLogOp
  remove : RuleId → TtlLogOp
  compacted : ℕ → TtlLogOp

pub record TtlLogEntry : Type 0 where
  pub seq : ℕ
  pub timestamp_ms : ℕ
  pub op : TtlLogOp

-- A line of the file as `serde_json` reads it: empty, not a log entry, or one.
pub data Line : Type 0 where
  blank garbled : Line
  logged : TtlLogEntry → Line

pub record Persister : Type 0 where
  pub lines : List Line
  pub next_seq : ℕ
  pub healthy : Bool
  pub leaves_line : Bool

-- `find_max_seq` passes over lines that do not parse.
unfoldable pub find_max_seq : ℕ → List Line → ℕ
find_max_seq m [] = m
find_max_seq m (logged e ∷ rest) = find_max_seq (max m e.seq) rest
find_max_seq m (_ ∷ rest) = find_max_seq m rest

unfoldable pub open_persister : List Line → Persister
unfolding find_max_seq
open_persister lines = record {
  lines = lines;
  next_seq = u64 (find_max_seq 0 lines + 1);
  healthy = true;
  leaves_line = false;
}

-- The entries so far, and the sequence number up to which entries are skipped.
abbrev pub Loaded : Type 0
Loaded = Map RuleId TtlEntry × ℕ

update_entry : ℕ → TtlState → TtlEntry → TtlEntry
update_entry generation state e =
    if ltb e.generation generation then record e { state = state; generation = generation } else e

unfoldable pub apply_op : TtlLogOp → Loaded → Loaded
unfolding update_entry
apply_op (register e) (m, c) = (Map.insert e.rule_id e m, c)
apply_op (update id state generation) (m, c) = elim (Map.get id m) [
  | none ↦ (m, c)
  | some e ↦ (Map.insert id (update_entry generation state e) m, c)
]
apply_op (remove id) (m, c) = (Map.remove id m, c)
apply_op (compacted up_to) (m, c) = (m, up_to)

unfoldable pub replay_line : Line → Loaded → Result TtlError Loaded
unfolding apply_op
replay_line blank s = ok s
replay_line garbled s = err serialization_error
replay_line (logged e) s = ok (if leb e.seq s.1 then s else apply_op e.op s)

unfoldable pub replay : List Line → Loaded → Result TtlError Loaded
unfolding replay_line
replay [] s = ok s
replay (line ∷ rest) s = replay_line line s >>= replay rest

unfoldable pub load : Persister → Result TtlError (List TtlEntry)
unfolding replay
load p = do (m, c) ← replay p.lines ([], 0); ok (values m)

-- The sequence number is taken before the write is tried.
unfoldable pub write_op : TtlLogOp → ℕ → Persister → Persister × Result TtlError (Unit {0})
write_op op now p =
    let next = u64 (p.next_seq + 1) in
    let line = logged (record { seq = p.next_seq; timestamp_ms = now; op = op }) in
    let longer = record p { lines = p.lines ++ line ∷ []; next_seq = next } in
    if p.healthy
    then (longer, ok tt)
    else (if p.leaves_line then longer else record p { next_seq = next }, err io_error)

unfoldable pub persist : TtlEntry → ℕ → Persister → Persister × Result TtlError (Unit {0})
unfolding write_op
persist e = write_op (register e)

unfoldable pub persist_update :
    RuleId → TtlState → ℕ → ℕ → Persister → Persister × Result TtlError (Unit {0})
unfolding write_op
persist_update id state generation = write_op (update id state generation)

unfoldable pub remove_entry : RuleId → ℕ → Persister → Persister × Result TtlError (Unit {0})
unfolding write_op
remove_entry id = write_op (remove id)

-- The lines of the live entries, numbered from `seq` on.
unfoldable pub live_lines : ℕ → ℕ → List TtlEntry → List Line
live_lines seq now [] = []
live_lines seq now (e ∷ es) =
    logged (record { seq = seq; timestamp_ms = now; op = register e })
    ∷ live_lines (u64 (seq + 1)) now es

unfoldable pub seq_after : ℕ → List TtlEntry → ℕ
seq_after seq [] = seq
seq_after seq (e ∷ es) = seq_after (u64 (seq + 1)) es

-- The marker and the live entries go to a new file, which replaces the old one.
unfoldable pub compact : List TtlEntry → ℕ → Persister → Persister × Result TtlError (Unit {0})
unfolding live_lines seq_after
compact live now p =
    if p.healthy
    then (
      record p {
        lines =
            logged
              (record { seq = p.next_seq; timestamp_ms = now; op = compacted (p.next_seq - 1) })
            ∷ live_lines (u64 (p.next_seq + 1)) now live;
        next_seq = seq_after (u64 (p.next_seq + 1)) live;
      },
      ok tt,
    )
    else (p, err io_error)
