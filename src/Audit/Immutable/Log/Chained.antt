-- ===== src/Audit/Immutable/Log/Chained.antt =====
-- The log file passes verification whatever is appended, as long as the write-ahead file can be emptied.
use project_whitequbit.Base.{
  ℕ, ◌+◌, ◌≡◌, refl, ap, sym, ◌∙◌, u64, String, Bool, true, false, List, [], ◌∷◌, ◌++◌, ok, err,
  ltb, if◌then◌else◌, ◌⊎◌, Bool-cases, inl, inr, All,
}
use project_whitequbit.Base.Hash.{Hashing}
use project_whitequbit.Audit.Entry.{Json}
use project_whitequbit.Audit.Immutable.Entry.{ImmutableAuditEntry, compute_hash, hashed_bytes}
use project_whitequbit.Audit.Immutable.Builder.{AuditEntryBuilder, build_entry, rehash}
use project_whitequbit.Audit.Immutable.Verify.{
  Line, written, io, verify_chain, pass, load_chain_state, ChainState,
}
use project_whitequbit.Audit.Immutable.Verify.Chain.{
  genesis, after_entry, Intact, reached_after, Intact-append, reached-append, entries,
  verify_chain-Intact, load_chain_state-Intact,
}
use project_whitequbit.Audit.Immutable.Wal.{Encoding}
use project_whitequbit.Audit.Immutable.Log.{
  Outcome, answer, cannot_push, appended, ImmutableAuditLogger, LoggerState, Faults, Writing,
  write_entry, checkpointed, checkpoint_entry, create_checkpoint, entries_since, maybe_checkpoint,
  after_write, append, append_locked,
}

-- What is read from the file is what the state holds; the cumulative hash is not.
abbrev pub Agrees : ChainState → LoggerState → Type 0
Agrees c s =
    (c.next_sequence ≡ s.next_sequence)
    × (c.last_hash ≡ s.last_hash)
    × (c.last_checkpoint_seq ≡ s.last_checkpoint_seq)

-- An append, with what comes from outside for the entry and for a checkpoint after it.
pub record Request : Type 0 where
  pub builder : AuditEntryBuilder
  pub writing : Writing
  pub checkpointing : Writing

abbrev pub Empties : Request → Type 0
Empties q = (q.writing.faults.commit_ok ≡ true) × (q.checkpointing.faults.commit_ok ≡ true)

module _ (hashing : Hashing Json) (quoted_bytes : String → List ℕ) (encoding : Encoding) where
  abbrev pub IsChained : ImmutableAuditLogger → Type 0
  IsChained l =
      Intact hashing quoted_bytes l.lines genesis × Agrees (reached_after l.lines genesis) l.state

  abbrev pub append_all : List Request → ImmutableAuditLogger → ImmutableAuditLogger
  append_all [] l = l
  append_all (q ∷ qs) l =
      append_all qs (append hashing quoted_bytes encoding q.builder q.writing q.checkpointing l).0

  -- The entry follows the state, and its own hash is right.
  abbrev Follows : ImmutableAuditEntry → LoggerState → Type 0
  Follows e s =
      (e.sequence ≡ s.next_sequence)
      × (e.previous_hash ≡ s.last_hash)
      × (e.entry_hash ≡ compute_hash hashing quoted_bytes e)

  rehash-Follows :
      (e : ImmutableAuditEntry) (s : LoggerState)
      → e.sequence ≡ s.next_sequence
      → e.previous_hash ≡ s.last_hash
      → Follows (rehash hashing quoted_bytes e) s
  unfolding compute_hash hashed_bytes
  rehash-Follows e s q p = (q, p, refl)

  checkpoint_entry-Follows :
      (since last : ℕ) (cumulative : String) (hashes : List String) (w : Writing) (s : LoggerState)
      → Follows (checkpoint_entry hashing quoted_bytes encoding since last cumulative hashes w s) s
  unfolding checkpoint_entry
  checkpoint_entry-Follows since last cumulative hashes w s = rehash-Follows _ s refl refl

  build_entry-Follows :
      (b : AuditEntryBuilder) (entry_id : String) (now : ℕ) (s : LoggerState)
      → Follows (build_entry hashing quoted_bytes b entry_id now s.next_sequence s.last_hash) s
  unfolding build_entry
  build_entry-Follows b entry_id now s = rehash-Follows _ s refl refl

  -- The lines are the old ones, or the old ones and the entry.
  abbrev Written : ImmutableAuditEntry → ImmutableAuditLogger → ImmutableAuditLogger → Type 0
  Written e l l' =
      (l'.lines ≡ l.lines ++ written e ∷ []) × (l'.state ≡ l.state) × (l'.config ≡ l.config)

  abbrev Unwritten : ImmutableAuditLogger → ImmutableAuditLogger → Type 0
  Unwritten l l' = (l'.lines ≡ l.lines) × (l'.state ≡ l.state)

  write_entry-cases :
      (faults : Faults) (e : ImmutableAuditEntry) (l : ImmutableAuditLogger)
      → faults.commit_ok ≡ true
      → let (l', r) = write_entry hashing quoted_bytes encoding faults e l in
        ((r ≡ err io) × Unwritten l l') ⊎ ((r ≡ ok tt) × Written e l l')
  unfolding write_entry
  write_entry-cases faults e l empties = elim (Bool-cases faults.wal_ok) [
    | inr w ↦ rw (w, write_entry) (inl (refl, (refl, refl)))
    | inl w ↦ elim (Bool-cases faults.log_ok) [
      | inr g ↦ rw (w, g, write_entry) (inl (refl, (refl, refl)))
      | inl g ↦ rw (w, g, empties, write_entry) (inr (refl, (refl, refl, refl)))
    ]
  ]

  abbrev ChainedBy : List Line → LoggerState → Type 0
  ChainedBy lines s =
      Intact hashing quoted_bytes lines genesis × Agrees (reached_after lines genesis) s

  grown :
      (e : ImmutableAuditEntry) (lines lines' : List Line) (s s' : LoggerState)
      → ChainedBy lines s
      → Follows e s
      → lines' ≡ lines ++ written e ∷ []
      → Agrees (after_entry e (reached_after lines genesis)) s'
      → ChainedBy lines' s'
  grown e lines lines' s s' (i, (n, h, k)) (q, p, r) longer agrees = rw longer (
    Intact-append hashing quoted_bytes lines (written e ∷ []) genesis i
        ((q ∙ sym n, p ∙ sym h, r), tt),
    rw (reached-append lines (written e ∷ []) genesis) agrees,
  )

  unwritten : (l l' : ImmutableAuditLogger) → IsChained l → Unwritten l l' → IsChained l'
  unwritten l l' c (same_lines, same_state) = rw (same_lines, same_state) c

  create_checkpoint-IsChained :
      (since last : ℕ) (cumulative : String) (hashes : List String) (w : Writing)
      (l : ImmutableAuditLogger)
      → w.faults.commit_ok ≡ true
      → IsChained l
      → IsChained
          (create_checkpoint hashing quoted_bytes encoding since last cumulative hashes w l).0
  unfolding create_checkpoint
  create_checkpoint-IsChained since last cumulative hashes w l empties c =
      let e =
        checkpoint_entry hashing quoted_bytes encoding since last cumulative hashes w l.state in
      elim (write_entry-cases w.faults e l empties) [
        | inl (r, kept) ↦
            rw (r, create_checkpoint)
              (unwritten l (write_entry hashing quoted_bytes encoding w.faults e l).0 c kept)
        | inr (r, (longer, same, config)) ↦
            rw (r, create_checkpoint)
              (unfold checkpoint_entry in
                grown e l.lines _ l.state (checkpointed hashing quoted_bytes encoding e l.state) c
                  (checkpoint_entry-Follows since last cumulative hashes w l.state) longer
                  (ap (λ n. u64 (n + 1)) c.1.0, refl, refl))
      ]

  maybe_checkpoint-IsChained :
      (w : Writing) (l : ImmutableAuditLogger)
      → w.faults.commit_ok ≡ true
      → IsChained l
      → IsChained (maybe_checkpoint hashing quoted_bytes encoding w l).0
  unfolding maybe_checkpoint
  maybe_checkpoint-IsChained w l empties c =
      elim (Bool-cases (ltb (entries_since l.state) l.config.checkpoint_interval)) [
        | inl q ↦ rw (q, maybe_checkpoint) c
        | inr q ↦
            rw (q, maybe_checkpoint)
              (create_checkpoint-IsChained (entries_since l.state) l.state.last_checkpoint_seq
                l.state.cumulative_hash l.state.hashes_since_checkpoint w l empties c)
      ]

  answer-IsChained :
      (e : ImmutableAuditEntry) (o : Outcome (Unit {0})) → IsChained o.0 → IsChained (answer e o).0
  answer-IsChained e (l, ok _) c = c
  answer-IsChained e (l, err x) c = c

  after_write-IsChained :
      (e : ImmutableAuditEntry) (w : Writing) (l : ImmutableAuditLogger)
      → w.faults.commit_ok ≡ true
      → ChainedBy l.lines (appended hashing quoted_bytes encoding l.config e l.state)
      → IsChained (after_write hashing quoted_bytes encoding e w l).0
  unfolding after_write
  after_write-IsChained e w l empties c =
      elim (Bool-cases (cannot_push l.config l.state.recent_entries)) [
        | inl q ↦ rw (q, after_write) c
        | inr q ↦
            rw (q, after_write) (answer-IsChained e _ (maybe_checkpoint-IsChained w _ empties c))
      ]

  append_locked-IsChained :
      (q : Request) (l : ImmutableAuditLogger)
      → Empties q
      → IsChained l
      → IsChained
          (append_locked hashing quoted_bytes encoding q.builder q.writing q.checkpointing l).0
  unfolding append_locked
  append_locked-IsChained q l (empties, empties_later) c =
      let e =
        build_entry hashing quoted_bytes q.builder q.writing.entry_id q.writing.now
          l.state.next_sequence l.state.last_hash in
      let l' = (write_entry hashing quoted_bytes encoding q.writing.faults e l).0 in
      elim (write_entry-cases q.writing.faults e l empties) [
        | inl (r, kept) ↦ rw (r, append_locked) (unwritten l l' c kept)
        | inr (r, (longer, same, config)) ↦
            rw (r, append_locked)
              (after_write-IsChained e q.checkpointing l' empties_later (
                unfold build_entry in
                grown e l.lines l'.lines l.state
                  (appended hashing quoted_bytes encoding l'.config e l'.state) c
                  (build_entry-Follows q.builder q.writing.entry_id q.writing.now l.state) longer
                  (rw same (ap (λ n. u64 (n + 1)) c.1.0, refl, c.1.2))))
      ]

  either-IsChained :
      {A : Type 0} (b : Bool) (x y : Outcome A)
      → IsChained x.0
      → IsChained y.0
      → IsChained (if b then x else y).0
  either-IsChained true x y c d = c
  either-IsChained false x y c d = d

  -- An append keeps the log file and the state in step, where the write-ahead file can be emptied.
  append-IsChained :
      (q : Request) (l : ImmutableAuditLogger)
      → Empties q
      → IsChained l
      → IsChained (append hashing quoted_bytes encoding q.builder q.writing q.checkpointing l).0
  unfolding append
  append-IsChained q l empties c =
      either-IsChained l.poisoned _ _ c (append_locked-IsChained q l empties c)

  append_all-IsChained :
      (qs : List Request) (l : ImmutableAuditLogger)
      → All Empties qs
      → IsChained l
      → IsChained (append_all qs l)
  append_all-IsChained [] l a c = c
  append_all-IsChained (q ∷ qs) l (a, b) c = append_all-IsChained qs _ b (append-IsChained q l a c)

  -- The result of verifying a log file, and what a restart reads from it, against the state.
  abbrev Verified : ImmutableAuditLogger → Type 0
  Verified l =
      (verify_chain hashing quoted_bytes l.lines ≡ ok (pass (u64 (entries l.lines))))
      × ((chain : ChainState) × (load_chain_state l.lines ≡ ok chain) × Agrees chain l.state)

  -- From a logger in step with its file, whatever is appended and whichever writes are refused, as
  -- long as the write-ahead file can be emptied: the file passes verification with all its entries
  -- counted, and a restart reads the sequence number, hash and last checkpoint that the state holds.
  pub append_all-Verified :
      (qs : List Request) (l : ImmutableAuditLogger)
      → All Empties qs
      → IsChained l
      → Verified (append_all qs l)
  append_all-Verified qs l a c =
      let (i, agrees) = append_all-IsChained qs l a c in
      (
        (verify_chain-Intact hashing quoted_bytes (append_all qs l).lines).0 i,
        (
          reached_after (append_all qs l).lines genesis,
          load_chain_state-Intact hashing quoted_bytes (append_all qs l).lines i,
          agrees,
        ),
      )
