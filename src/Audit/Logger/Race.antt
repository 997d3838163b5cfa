-- ===== src/Audit/Logger/Race.antt =====
-- What the log file holds when a call runs between the two locks of `log_action_prepared`, and what the
-- hash of an entry does not tell apart.
use project_whitequbit.Base.{
  ℕ, ◌+◌, ◌<◌, ◌≡◌, ◌≢◌, refl, ap, ◌∙◌, u64, u64_mod, String, true, false, Option, err, none, some,
  List, [], ◌∷◌, ◌++◌, arith, Bool-cases, inl, inr,
}
use project_whitequbit.Base.Hash.{Hashing}
use project_whitequbit.Audit.Entry.{
  Json, AuditEntry, new_entry, with_details, compute_hash, verify, AuditEventType, io,
}
use project_whitequbit.Audit.Sink.{Line, blank, garbled, written, write}
use project_whitequbit.Audit.Integrity.{verify_file}
use project_whitequbit.Audit.Integrity.Chain.{Intact, is_valid, end_of, verify_file-Intact}
use project_whitequbit.Audit.Logger.{AuditLogger, write_next, append_with_details, prepared_entry}
use project_whitequbit.Audit.Logger.Growth.{
  IsChained, on_disk, end_of-append, details-IsChained, prepared-IsNext,
}

module _ (hashing : Hashing Json) where
  Intact-numbered :
      (xs : List Line) (e : AuditEntry) (n : ℕ) (h : String)
      → Intact hashing (xs ++ written e ∷ []) n h
      → e.sequence ≡ (end_of xs n h).0
  Intact-numbered [] e n h i = i.0
  Intact-numbered (blank ∷ xs) e n h i = Intact-numbered xs e n h i
  Intact-numbered (garbled ∷ xs) e n h i = ground arith
  Intact-numbered (written x ∷ xs) e n h (q, p, r, i) = Intact-numbered xs e (u64 (n + 1)) x.hash i

  -- Writing on a file system that takes the write.
  written_lines :
      (e : AuditEntry) (l : AuditLogger)
      → l.sink.healthy ≡ true
      → ((write_next e l).0.sink.lines ≡ l.sink.lines ++ written e ∷ [])
        × ((write_next e l).0.next_sequence ≡ u64 (l.next_sequence + 1))
        × ((write_next e l).0.sink.healthy ≡ true)
  unfolding write_next write
  written_lines e l well = rw well (refl, refl, refl)

  misnumbered_breaks :
      (e : AuditEntry) (xs : List Line)
      → e.sequence ≢ (end_of xs 1 "").0
      → is_valid (verify_file hashing (xs ++ written e ∷ [])) ≡ false
  misnumbered_breaks e xs stale =
      elim (Bool-cases (is_valid (verify_file hashing (xs ++ written e ∷ [])))) [
        | inr refused ↦ refused
        | inl valid ↦ absurd (
            stale (
              Intact-numbered xs e 1 ""
                ((verify_file-Intact hashing (xs ++ written e ∷ [])).1 valid)))
      ]

  stale_breaks :
      (e : AuditEntry) (l : AuditLogger)
      → l.sink.healthy ≡ true
      → IsChained hashing l
      → e.sequence ≢ l.next_sequence
      → is_valid (verify_file hashing (write_next e l).0.sink.lines) ≡ false
  stale_breaks e l well (i, q) stale =
      rw (written_lines e l well).0
        (misnumbered_breaks e l.sink.lines (λ same. stale (same ∙ ap (λ s. s.0) q)))

  -- When another entry is written after `log_action_prepared` has read the state and before it writes,
  -- the log file fails verification.
  pub prepared_race_breaks :
      (now then : ℕ) (action_id action_type : String) (actor : Option String)
      (event_type : AuditEventType) (details : Json) (l : AuditLogger)
      → l.sink.healthy ≡ true
      → l.next_sequence + 1 < u64_mod
      → IsChained hashing l
      → is_valid (
          verify_file hashing
            (write_next
              (prepared_entry hashing now action_id action_type actor l)
              (append_with_details hashing then event_type details l).0).0.sink.lines)
        ≡ false
  unfolding append_with_details
  prepared_race_breaks now then action_id action_type actor event_type details l well room c =
      let between =
        with_details hashing details
          (new_entry hashing l.next_sequence event_type l.last_hash then) in
      let (_, next, still) = written_lines between l well in
      stale_breaks (prepared_entry hashing now action_id action_type actor l)
        (write_next between l).0 still
        (details-IsChained hashing then event_type details l (inl well) c)
        (λ same. absurd (
          omega (
            arith,
            room,
            next,
            same,
            (prepared-IsNext hashing now action_id action_type actor l).0,
          )))

  -- An entry whose actor is known and whose target is not, and the entry with the two swapped, are
  -- both accepted or both refused.
  pub actor_as_target_verifies :
      (e : AuditEntry) (name : String)
      → verify hashing (record e { actor = some name; target = none })
        ≡ verify hashing (record e { actor = none; target = some name })
  unfolding verify compute_hash
  actor_as_target_verifies e name = refl

  -- When an entry's line is in the file and `sync_all` fails, the call answers with an error and the logger's
  -- state stays, so that after the next entry that is written the log file fails verification.
  pub unsynced_append_breaks :
      (now later : ℕ) (event_type next_type : AuditEventType) (details next_details : Json)
      (l : AuditLogger)
      → l.sink.healthy ≡ false
      → l.sink.leaves_line ≡ true
      → l.next_sequence + 1 < u64_mod
      → IsChained hashing l
      → let (failed, answer) = append_with_details hashing now event_type details l in
        (answer ≡ err io)
        × (is_valid (
              verify_file hashing
                (append_with_details hashing later next_type next_details
                  (on_disk hashing true failed)).0.sink.lines)
            ≡ false)
  unfolding append_with_details write_next write new_entry with_details
  unsynced_append_breaks now later event_type next_type details next_details l ill late room
        (i, q) =
      rw (ill, late)
        (
          refl,
          misnumbered_breaks _ _ (λ same. absurd (
              omega (
                arith,
                room,
                same,
                ap (λ s. s.0) (end_of-append hashing l.sink.lines _ 1 ""),
                ap (λ s. s.0) q,
              ))),
        )
