-- ===== src/Audit/Immutable/Log/Refused.antt =====
-- An append that fails after its line is in the log file: the state does not know of the line.
use project_whitequbit.Base.{
  ℕ, ◌≡◌, refl, ap, sym, ◌∙◌, subst, String, Bool, true, false, List, [], ◌∷◌, ◌++◌, ok, err, ltb,
  if◌then◌else◌, arith, Bool-cases, Result-cases, inl, inr,
}
use project_whitequbit.Base.Hash.{Hashing}
use mathlib.Core.List.{append-nil, append_assoc}
use project_whitequbit.Audit.Entry.{Json}
use project_whitequbit.Audit.Immutable.Entry.{ImmutableAuditEntry}
use project_whitequbit.Audit.Immutable.Builder.{build_entry}
use project_whitequbit.Audit.Immutable.Verify.{Line, blank, garbled, written, io, verify_chain}
use project_whitequbit.Audit.Immutable.Verify.Chain.{
  genesis, after_entry, Intact, reached_after, verify_chain-Intact, is_valid,
}
use project_whitequbit.Audit.Immutable.Verify.{ChainState}
use project_whitequbit.Audit.Immutable.Wal
use project_whitequbit.Audit.Immutable.Wal.{Encoding}
use project_whitequbit.Audit.Immutable.Log.{
  Outcome, answer, cannot_push, ImmutableAuditLogger, Faults, Writing, write_entry,
  checkpoint_entry, create_checkpoint, entries_since, maybe_checkpoint, after_write, append,
  append_locked,
}
use project_whitequbit.Audit.Immutable.Log.Chained.{Request}

abbrev pub Taken : Faults → Type 0
Taken f = (f.wal_ok ≡ true) × (f.log_ok ≡ true) × (f.commit_ok ≡ true)

-- The line is written, and the write-ahead file is not emptied.
abbrev pub LeftPending : Faults → Type 0
LeftPending f = (f.wal_ok ≡ true) × (f.log_ok ≡ true) × (f.commit_ok ≡ false)

-- The second list is the first with lines after it.
abbrev Extends : List Line → List Line → Type 0
Extends lines lines' = (more : List Line) × (lines' ≡ lines ++ more)

kept : (lines : List Line) → Extends lines lines
kept lines = ([], sym (append-nil lines))

either-Extends :
    {A : Type 0} (lines : List Line) (b : Bool) (x y : Outcome A)
    → Extends lines x.0.lines
    → Extends lines y.0.lines
    → Extends lines (if b then x else y).0.lines
either-Extends lines true x y c d = c
either-Extends lines false x y c d = d

module _ (hashing : Hashing Json) (quoted_bytes : String → List ℕ) (encoding : Encoding) where
  Intact-later :
      (xs ys : List Line) (c : ChainState)
      → Intact hashing quoted_bytes (xs ++ ys) c
      → Intact hashing quoted_bytes ys (reached_after xs c)
  Intact-later [] ys c i = i
  Intact-later (blank ∷ xs) ys c i = Intact-later xs ys c i
  Intact-later (garbled ∷ xs) ys c i = ground arith
  Intact-later (written e ∷ xs) ys c (q, i) = Intact-later xs ys (after_entry e c) i

  write_entry-Extends :
      (faults : Faults) (e : ImmutableAuditEntry) (l : ImmutableAuditLogger)
      → Extends l.lines (write_entry hashing quoted_bytes encoding faults e l).0.lines
  unfolding write_entry
  write_entry-Extends faults e l =
      either-Extends l.lines faults.wal_ok _ _
        (either-Extends l.lines faults.log_ok _ _
          (either-Extends l.lines faults.commit_ok _ _ (written e ∷ [], refl)
            (written e ∷ [], refl))
          (kept l.lines))
        (kept l.lines)

  create_checkpoint-Extends :
      (since last : ℕ) (cumulative : String) (hashes : List String) (w : Writing)
      (l : ImmutableAuditLogger)
      → Extends l.lines
          (create_checkpoint hashing quoted_bytes encoding since last cumulative hashes w l).0.lines
  unfolding create_checkpoint
  create_checkpoint-Extends since last cumulative hashes w l =
      let e =
        checkpoint_entry hashing quoted_bytes encoding since last cumulative hashes w l.state in
      elim (Result-cases (write_entry hashing quoted_bytes encoding w.faults e l).1) [
        | inl (x, r) ↦ rw (r, create_checkpoint) (write_entry-Extends w.faults e l)
        | inr (x, r) ↦ rw (r, create_checkpoint) (write_entry-Extends w.faults e l)
      ]

  maybe_checkpoint-Extends :
      (w : Writing) (l : ImmutableAuditLogger)
      → Extends l.lines (maybe_checkpoint hashing quoted_bytes encoding w l).0.lines
  unfolding maybe_checkpoint
  maybe_checkpoint-Extends w l =
      either-Extends l.lines (ltb (entries_since l.state) l.config.checkpoint_interval) _ _
        (kept l.lines)
        (create_checkpoint-Extends (entries_since l.state) l.state.last_checkpoint_seq
          l.state.cumulative_hash l.state.hashes_since_checkpoint w l)

  answer-Extends :
      (lines : List Line) (e : ImmutableAuditEntry) (o : Outcome (Unit {0}))
      → Extends lines o.0.lines
      → Extends lines (answer e o).0.lines
  answer-Extends lines e (l, ok _) x = x
  answer-Extends lines e (l, err _) x = x

  after_write-Extends :
      (e : ImmutableAuditEntry) (w : Writing) (l : ImmutableAuditLogger)
      → Extends l.lines (after_write hashing quoted_bytes encoding e w l).0.lines
  unfolding after_write
  after_write-Extends e w l =
      either-Extends l.lines (cannot_push l.config l.state.recent_entries) _ _ (kept l.lines)
        (answer-Extends l.lines e _ (maybe_checkpoint-Extends w _))

  -- The entry that an append writes.
  abbrev pub next_entry : Request → ImmutableAuditLogger → ImmutableAuditEntry
  next_entry q l =
      build_entry hashing quoted_bytes q.builder q.writing.entry_id q.writing.now
        l.state.next_sequence l.state.last_hash

  abbrev pub after_append : Request → ImmutableAuditLogger → Outcome ImmutableAuditEntry
  after_append q l = append hashing quoted_bytes encoding q.builder q.writing q.checkpointing l

  write_entry-LeftPending :
      (faults : Faults) (e : ImmutableAuditEntry) (l : ImmutableAuditLogger)
      → LeftPending faults
      → write_entry hashing quoted_bytes encoding faults e l
        ≡ (record l { lines = l.lines ++ written e ∷ []; wal = Wal.prepare encoding e }, err io)
  unfolding write_entry
  write_entry-LeftPending faults e l (a, b, c) = rw (a, b, c, write_entry) refl

  write_entry-Taken :
      (faults : Faults) (e : ImmutableAuditEntry) (l : ImmutableAuditLogger)
      → Taken faults
      → write_entry hashing quoted_bytes encoding faults e l
        ≡ (record l { lines = l.lines ++ written e ∷ []; wal = [] }, ok tt)
  unfolding write_entry
  write_entry-Taken faults e l (a, b, c) = rw (a, b, c, write_entry) refl

  else_branch : {A : Type 0} (b : Bool) (x y : A) → b ≡ false → (if b then x else y) ≡ y
  else_branch true x y q = ground arith
  else_branch false x y q = refl

  after_append-LeftPending :
      (q : Request) (l : ImmutableAuditLogger)
      → l.poisoned ≡ false
      → LeftPending q.writing.faults
      → after_append q l ≡ (
        record l {
          lines = l.lines ++ written (next_entry q l) ∷ [];
          wal = Wal.prepare encoding (next_entry q l);
        },
        err io,
      )
  unfolding append append_locked
  after_append-LeftPending q l p left =
      let e = next_entry q l in
      let written_pending = write_entry-LeftPending q.writing.faults e l left in
      else_branch l.poisoned _ _ p
      ∙ rw (ap (λ o. o.1) written_pending, append_locked) (ap (λ o. (o.0, err io)) written_pending)

  after_append-Taken :
      (q : Request) (l : ImmutableAuditLogger)
      → l.poisoned ≡ false
      → Taken q.writing.faults
      → Extends (l.lines ++ written (next_entry q l) ∷ []) (after_append q l).0.lines
  unfolding append append_locked
  after_append-Taken q l p taken =
      let e = next_entry q l in
      let done = write_entry-Taken q.writing.faults e l taken in
      rw (else_branch l.poisoned _ _ p, ap (λ o. o.1) done, append_locked)
        (subst
          (λ o.
            Extends o.0.lines
              (after_write hashing quoted_bytes encoding e q.checkpointing
                (write_entry hashing quoted_bytes encoding q.writing.faults e l).0).0.lines)
          done (after_write-Extends e q.checkpointing _))

  -- A file that extends one in which two entries of one number follow each other does not pass.
  repeated_fails :
      (lines lines' : List Line) (e e' : ImmutableAuditEntry)
      → e.sequence ≡ e'.sequence
      → Extends ((lines ++ written e ∷ []) ++ written e' ∷ []) lines'
      → is_valid (verify_chain hashing quoted_bytes lines') ≡ false
  repeated_fails lines lines' e e' same (more, longer) =
      elim (Bool-cases (is_valid (verify_chain hashing quoted_bytes lines'))) [
        | inr q ↦ q
        | inl q ↦
            let i = (verify_chain-Intact hashing quoted_bytes lines').1 q in
            let after = Intact-later lines (written e ∷ written e' ∷ more) genesis (
              subst (λ ls. Intact hashing quoted_bytes ls genesis)
                (longer
                  ∙ append_assoc (lines ++ written e ∷ []) (written e' ∷ []) more
                  ∙ append_assoc lines (written e ∷ []) (written e' ∷ more))
                i) in
            ground (arith, same, after.0.0, after.1.0.0)
      ]

  -- When the write-ahead file cannot be emptied after the line of an append has reached the log file,
  -- the call fails and leaves the state as it was; after the next append that succeeds in its writes,
  -- the log file no longer passes verification.
  pub refused_append_breaks :
      (q q' : Request) (l : ImmutableAuditLogger)
      → l.poisoned ≡ false
      → LeftPending q.writing.faults
      → Taken q'.writing.faults
      → let (l', r) = after_append q l in
        (r ≡ err io)
        × (l'.state ≡ l.state)
        × (is_valid (verify_chain hashing quoted_bytes (after_append q' l').0.lines) ≡ false)
  unfolding build_entry
  refused_append_breaks q q' l p left taken = rw (after_append-LeftPending q l p left) (
    refl,
    refl,
    repeated_fails l.lines _ (next_entry q l) (next_entry q' l) refl
        (after_append-Taken q' _ p taken),
  )
