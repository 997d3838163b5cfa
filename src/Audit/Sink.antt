-- ===== src/Audit/Sink.antt =====
-- audit/sink.rs: the file that the entries go to, as its lines; `healthy` says whether a
-- write succeeds in all its steps; when it fails, `leaves_line` says whether it fails only at `sync_all`,
-- with the line in the file. The syslog sink is not modelled.
use project_whitequbit.Base.{
  ℕ, ◌+◌, u64, String, Bool, List, [], ◌∷◌, ◌++◌, Result, ok, err, if◌then◌else◌,
}
use project_whitequbit.Audit.Entry.{AuditEntry, AuditError, io, serialization}

pub data Line : Type 0 where
  blank garbled : Line
  written : AuditEntry → Line

pub record FileSink : Type 0 where
  pub lines : List Line
  pub healthy : Bool
  pub leaves_line : Bool

unfoldable pub write : AuditEntry → FileSink → FileSink × Result AuditError (Unit {0})
write e s =
    let longer = record s { lines = s.lines ++ written e ∷ [] } in
    if s.healthy then (longer, ok tt) else (if s.leaves_line then longer else s, err io)

-- The loop of `get_chain_state`, with the last sequence number and hash.
unfoldable pub chain_state_from : List Line → ℕ → String → Result AuditError (ℕ × String)
chain_state_from [] last_sequence last_hash = ok (u64 (last_sequence + 1), last_hash)
chain_state_from (blank ∷ lines) last_sequence last_hash =
    chain_state_from lines last_sequence last_hash
chain_state_from (garbled ∷ lines) last_sequence last_hash = err serialization
chain_state_from (written e ∷ lines) last_sequence last_hash =
    chain_state_from lines e.sequence e.hash

unfoldable pub get_chain_state : FileSink → Result AuditError (ℕ × String)
unfolding chain_state_from
get_chain_state s = chain_state_from s.lines 0 ""
