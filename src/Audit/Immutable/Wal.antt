-- ===== src/Audit/Immutable/Wal.antt =====
-- audit/immutable.rs: the write-ahead file, which holds the entry that is being written. JSON and the
-- CRC of its text are parameters; `from_json` gives nothing for a text that does not parse. A
-- refused write leaves the file as it was.
use project_whitequbit.Base.{
  ℕ, ◌≡◌, String, Bool, Option, none, some, List, [], ◌∷◌, Result, ok, err, nat_eqb, if◌then◌else◌,
}
use project_whitequbit.Audit.Immutable.Entry.{ImmutableAuditEntry}
use project_whitequbit.Audit.Immutable.Verify.{ImmutableAuditError, serialization}

pub record WalEntry : Type 0 where
  pub sequence : ℕ
  pub entry_json : String
  pub checksum : ℕ

pub data WalLine : Type 0 where
  blank garbled : WalLine
  pending : WalEntry → WalLine

pub record Encoding : Type 0 where
  pub to_json : ImmutableAuditEntry → String
  pub from_json : String → Option ImmutableAuditEntry
  pub crc : String → ℕ

-- What `serde_json` documents: a value that was written reads back.
pub record IsFaithful (encoding : Encoding) : Type 0 where
  pub reads_back : (e : ImmutableAuditEntry) → encoding.from_json (encoding.to_json e) ≡ some e

module _ (encoding : Encoding) where
  open encoding use {to_json, from_json, crc}

  unfoldable pub new_wal_entry : ImmutableAuditEntry → WalEntry
  new_wal_entry e = record {
    sequence = e.sequence;
    entry_json = to_json e;
    checksum = crc (to_json e);
  }

  unfoldable pub verify_crc : WalEntry → Bool
  verify_crc w = nat_eqb (crc w.entry_json) w.checksum

  unfoldable pub to_entry : WalEntry → Result ImmutableAuditError ImmutableAuditEntry
  to_entry w = elim (from_json w.entry_json) [ none ↦ err serialization | some e ↦ ok e ]

  -- The file after `prepare`, when the file system takes the write.
  unfoldable pub prepare : ImmutableAuditEntry → List WalLine
  unfolding new_wal_entry
  prepare e = pending (new_wal_entry e) ∷ []

  -- The loop of `recover`.
  unfoldable pub recover : List WalLine → Result ImmutableAuditError (Option ImmutableAuditEntry)
  unfolding verify_crc to_entry
  recover [] = ok none
  recover (blank ∷ lines) = recover lines
  recover (garbled ∷ lines) = err serialization
  recover (pending w ∷ lines) =
      let rest = recover lines in
      if verify_crc w then elim (to_entry w) [ err e ↦ err e | ok e ↦ ok (some e) ] else rest
