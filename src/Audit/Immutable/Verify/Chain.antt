-- ===== src/Audit/Immutable/Verify/Chain.antt =====
-- The log files that pass verification, and what is read from them.
use project_whitequbit.Base.{
  ℕ, ◌+◌, ◌<◌, ◌≡◌, refl, ap, ◌∙◌, u64, u64_mod, String, Bool, true, false, List, [], ◌∷◌, ◌++◌,
  Result, ok, err, nat_eqb, number_key, text_key, ◌==◌, ==_iff, arith,
}
use project_whitequbit.Base.Hash.{Hashing}
use project_whitequbit.Audit.Entry.{Json}
use project_whitequbit.Audit.Immutable.Entry.{ImmutableAuditEntry, compute_hash, verify_hash}
use project_whitequbit.Audit.Immutable.Verify.{
  Line, blank, garbled, written, VerificationResult, ImmutableAuditError, pass, fail, verify_lines,
  verify_chain, ChainState, checkpoint_seq, checkpoint_hash, load_from, load_chain_state,
}

abbrev pub entries : List Line → ℕ
entries [] = 0
entries (blank ∷ lines) = entries lines
entries (garbled ∷ lines) = entries lines
entries (written e ∷ lines) = 1 + entries lines

-- What follows an entry, and what follows the lines of a file.
abbrev pub after_entry : ImmutableAuditEntry → ChainState → ChainState
after_entry e c = record {
  next_sequence = u64 (c.next_sequence + 1);
  last_hash = e.entry_hash;
  last_checkpoint_seq = checkpoint_seq e c.last_checkpoint_seq;
  cumulative_hash = checkpoint_hash e c.cumulative_hash;
}

abbrev pub reached_after : List Line → ChainState → ChainState
reached_after [] c = c
reached_after (blank ∷ lines) c = reached_after lines c
reached_after (garbled ∷ lines) c = reached_after lines c
reached_after (written e ∷ lines) c = reached_after lines (after_entry e c)

abbrev pub genesis : ChainState
genesis = record {
  next_sequence = 1;
  last_hash = "";
  last_checkpoint_seq = 0;
  cumulative_hash = "";
}

abbrev pub is_valid : Result ImmutableAuditError VerificationResult → Bool
is_valid (ok r) = r.valid
is_valid (err e) = false

pub reached-append :
    (xs ys : List Line) (c : ChainState)
    → reached_after (xs ++ ys) c ≡ reached_after ys (reached_after xs c)
reached-append [] ys c = refl
reached-append (blank ∷ xs) ys c = reached-append xs ys c
reached-append (garbled ∷ xs) ys c = reached-append xs ys c
reached-append (written e ∷ xs) ys c = reached-append xs ys (after_entry e c)

module _ (hashing : Hashing Json) (quoted_bytes : String → List ℕ) where
  -- The entry has the next number, the last hash, and a right hash of its own.
  abbrev pub IsNext : ImmutableAuditEntry → ChainState → Type 0
  IsNext e c =
      (e.sequence ≡ c.next_sequence)
      × (e.previous_hash ≡ c.last_hash)
      × (e.entry_hash ≡ compute_hash hashing quoted_bytes e)

  abbrev pub Intact : List Line → ChainState → Type 0
  Intact [] c = Unit
  Intact (blank ∷ lines) c = Intact lines c
  Intact (garbled ∷ lines) c = true ≡ false
  Intact (written e ∷ lines) c = IsNext e c × Intact lines (after_entry e c)

  verify_lines-Intact :
      (lines : List Line) (checked : ℕ) (c : ChainState)
      → checked < u64_mod
      → Intact lines c
      → verify_lines hashing quoted_bytes lines checked c.next_sequence c.last_hash
        ≡ ok (pass (u64 (checked + entries lines)))
  unfolding verify_lines verify_hash
  verify_lines-Intact [] checked c lt i = ground arith
  verify_lines-Intact (blank ∷ lines) checked c lt i = verify_lines-Intact lines checked c lt i
  verify_lines-Intact (garbled ∷ lines) checked c lt i = ground arith
  verify_lines-Intact (written e ∷ lines) checked c lt ((q, p, r), i) =
      let numbered : nat_eqb e.sequence c.next_sequence ≡ true =
        (==_iff e.sequence c.next_sequence).1 q in
      let linked : (e.previous_hash == c.last_hash) ≡ true =
        (==_iff e.previous_hash c.last_hash).1 p in
      let hashed : (e.entry_hash == compute_hash hashing quoted_bytes e) ≡ true =
        (==_iff e.entry_hash (compute_hash hashing quoted_bytes e)).1 r in
      let rest = verify_lines-Intact lines (u64 (checked + 1)) (after_entry e c) (omega arith) i in
      rw (numbered, linked, hashed) (rest ∙ ap (λ k. ok (pass k)) (omega (arith, lt)))

  verify_lines-valid :
      (lines : List Line) (checked : ℕ) (c : ChainState)
      → is_valid (verify_lines hashing quoted_bytes lines checked c.next_sequence c.last_hash)
        ≡ true
      → Intact lines c
  unfolding verify_lines verify_hash fail
  verify_lines-valid [] checked c v = tt
  verify_lines-valid (blank ∷ lines) checked c v = verify_lines-valid lines checked c v
  verify_lines-valid (garbled ∷ lines) checked c v = ground arith
  verify_lines-valid (written e ∷ lines) checked c v = ground (
    arith,
    v,
    (==_iff e.previous_hash c.last_hash).0,
    (==_iff e.entry_hash (compute_hash hashing quoted_bytes e)).0,
    verify_lines-valid lines (u64 (checked + 1)) (after_entry e c),
  )

  -- A log file passes verification exactly when it is intact, and the result then counts its entries.
  pub verify_chain-Intact :
      (lines : List Line)
      → (Intact lines genesis
          → verify_chain hashing quoted_bytes lines ≡ ok (pass (u64 (entries lines))))
        × (is_valid (verify_chain hashing quoted_bytes lines) ≡ true → Intact lines genesis)
  unfolding verify_chain
  verify_chain-Intact lines = (
    λ i.
        verify_lines-Intact lines 0 genesis (omega arith) i
        ∙ ap (λ k. ok (pass (u64 k))) (omega arith),
    verify_lines-valid lines 0 genesis,
  )

  pub Intact-append :
      (xs ys : List Line) (c : ChainState)
      → Intact xs c
      → Intact ys (reached_after xs c)
      → Intact (xs ++ ys) c
  Intact-append [] ys c i k = k
  Intact-append (blank ∷ xs) ys c i k = Intact-append xs ys c i k
  Intact-append (garbled ∷ xs) ys c i k = i
  Intact-append (written e ∷ xs) ys c (q, i) k = (q, Intact-append xs ys (after_entry e c) i k)

  load_from-Intact :
      (lines : List Line) (last : ℕ) (c : ChainState)
      → u64 (last + 1) ≡ c.next_sequence
      → Intact lines c
      → load_from lines last c.last_hash c.last_checkpoint_seq c.cumulative_hash
        ≡ ok (reached_after lines c)
  unfolding load_from
  load_from-Intact [] last c q i = ap (λ n. ok (record c { next_sequence = n })) q
  load_from-Intact (blank ∷ lines) last c q i = load_from-Intact lines last c q i
  load_from-Intact (garbled ∷ lines) last c q i = ground arith
  load_from-Intact (written e ∷ lines) last c q ((s, p, r), i) =
      load_from-Intact lines e.sequence (after_entry e c) (ap (λ n. u64 (n + 1)) s) i

  -- What is read from an intact file is what follows its last entry.
  pub load_chain_state-Intact :
      (lines : List Line)
      → Intact lines genesis
      → load_chain_state lines ≡ ok (reached_after lines genesis)
  unfolding load_chain_state
  load_chain_state-Intact lines i = load_from-Intact lines 0 genesis (omega arith) i
