-- ===== src/Audit/Integrity/Chain.antt =====
-- The files that pass verification.
use project_whitequbit.Base.{
  ℕ, ◌+◌, ◌<◌, ◌≡◌, refl, ap, ◌∙◌, number_key, u64, u64_mod, String, Bool, true, false, List, [],
  ◌∷◌, ◌++◌, Result, ok, err, nat_eqb, ltb, text_key, ◌==◌, ==_iff, arith,
}
use project_whitequbit.Base.Hash.{Hashing}
use project_whitequbit.Audit.Entry.{Json, AuditError, compute_hash, verify}
use project_whitequbit.Audit.Sink.{
  Line, blank, garbled, written, chain_state_from, FileSink, get_chain_state,
}
use project_whitequbit.Audit.Integrity.{
  VerificationResult, pass, fail, verify_from, verify_file, gaps_from, find_gaps,
}

-- The number of entries of a file.
abbrev pub entries : List Line → ℕ
entries [] = 0
entries (blank ∷ lines) = entries lines
entries (garbled ∷ lines) = entries lines
entries (written e ∷ lines) = 1 + entries lines

-- The next sequence number and the last hash after a file's lines.
abbrev pub end_of : List Line → ℕ → String → ℕ × String
end_of [] n h = (n, h)
end_of (blank ∷ lines) n h = end_of lines n h
end_of (garbled ∷ lines) n h = end_of lines n h
end_of (written e ∷ lines) n h = end_of lines (u64 (n + 1)) e.hash

abbrev pub is_valid : Result AuditError VerificationResult → Bool
is_valid (ok r) = r.valid
is_valid (err e) = false

module _ (hashing : Hashing Json) where
  -- Every line parses; the entries are numbered in order, each holds the hash of the one before it,
  -- and its own hash is right.
  abbrev pub Intact : List Line → ℕ → String → Type 0
  Intact [] n h = Unit
  Intact (blank ∷ lines) n h = Intact lines n h
  Intact (garbled ∷ lines) n h = true ≡ false
  Intact (written e ∷ lines) n h =
      (e.sequence ≡ n)
      × (e.previous_hash ≡ h)
      × (e.hash ≡ compute_hash hashing e)
      × Intact lines (u64 (n + 1)) e.hash

  verify_from-Intact :
      (lines : List Line) (checked n : ℕ) (h : String)
      → checked < u64_mod
      → Intact lines n h
      → verify_from hashing lines checked n h ≡ ok (pass (u64 (checked + entries lines)))
  unfolding verify_from verify
  verify_from-Intact [] checked n h lt i = ground arith
  verify_from-Intact (blank ∷ lines) checked n h lt i = verify_from-Intact lines checked n h lt i
  verify_from-Intact (garbled ∷ lines) checked n h lt i = ground arith
  verify_from-Intact (written e ∷ lines) checked n h lt (q, p, r, i) =
      let numbered : nat_eqb e.sequence n ≡ true = (==_iff e.sequence n).1 q in
      let linked : (e.previous_hash == h) ≡ true = (==_iff e.previous_hash h).1 p in
      let hashed : (e.hash == compute_hash hashing e) ≡ true =
        (==_iff e.hash (compute_hash hashing e)).1 r in
      let rest =
        verify_from-Intact lines (u64 (checked + 1)) (u64 (n + 1)) e.hash (omega arith) i in
      rw (numbered, linked, hashed) (rest ∙ ap (λ k. ok (pass k)) (omega (arith, lt)))

  verify_from-valid :
      (lines : List Line) (checked n : ℕ) (h : String)
      → is_valid (verify_from hashing lines checked n h) ≡ true
      → Intact lines n h
  unfolding verify_from verify fail
  verify_from-valid [] checked n h v = tt
  verify_from-valid (blank ∷ lines) checked n h v = verify_from-valid lines checked n h v
  verify_from-valid (garbled ∷ lines) checked n h v = ground arith
  verify_from-valid (written e ∷ lines) checked n h v = ground (
    arith,
    v,
    (==_iff e.previous_hash h).0,
    (==_iff e.hash (compute_hash hashing e)).0,
    verify_from-valid lines (u64 (checked + 1)) (u64 (n + 1)) e.hash,
  )

  -- A log file passes verification exactly when it is intact, and the result then counts its entries.
  pub verify_file-Intact :
      (lines : List Line)
      → (Intact lines 1 "" → verify_file hashing lines ≡ ok (pass (u64 (entries lines))))
        × (is_valid (verify_file hashing lines) ≡ true → Intact lines 1 "")
  unfolding verify_file
  verify_file-Intact lines = (
    λ i.
        verify_from-Intact lines 0 1 "" (omega arith) i ∙ ap (λ k. ok (pass (u64 k))) (omega arith),
    verify_from-valid lines 0 1 "",
  )

  pub Intact-append :
      (xs ys : List Line) (n : ℕ) (h : String)
      → Intact xs n h
      → Intact ys (end_of xs n h).0 (end_of xs n h).1
      → Intact (xs ++ ys) n h
  Intact-append [] ys n h i k = k
  Intact-append (blank ∷ xs) ys n h i k = Intact-append xs ys n h i k
  Intact-append (garbled ∷ xs) ys n h i k = i
  Intact-append (written e ∷ xs) ys n h (q, p, r, i) k =
      (q, p, r, Intact-append xs ys (u64 (n + 1)) e.hash i k)

  gaps_from-Intact :
      (lines : List Line) (gaps : List (ℕ × ℕ)) (n : ℕ) (h : String)
      → Intact lines n h
      → gaps_from lines gaps n ≡ ok gaps
  unfolding gaps_from
  gaps_from-Intact [] gaps n h i = refl
  gaps_from-Intact (blank ∷ lines) gaps n h i = gaps_from-Intact lines gaps n h i
  gaps_from-Intact (garbled ∷ lines) gaps n h i = ground arith
  gaps_from-Intact (written e ∷ lines) gaps n h (q, p, r, i) =
      let no_gap : ltb n n ≡ false = ground arith in
      rw (q, no_gap) (gaps_from-Intact lines gaps (u64 (n + 1)) e.hash i)

  chain_state_from-Intact :
      (lines : List Line) (last n : ℕ) (h : String)
      → u64 (last + 1) ≡ n
      → Intact lines n h
      → chain_state_from lines last h ≡ ok (end_of lines n h)
  unfolding chain_state_from
  chain_state_from-Intact [] last n h q i = rw q refl
  chain_state_from-Intact (blank ∷ lines) last n h q i = chain_state_from-Intact lines last n h q i
  chain_state_from-Intact (garbled ∷ lines) last n h q i = ground arith
  chain_state_from-Intact (written e ∷ lines) last n h q (s, p, r, i) =
      chain_state_from-Intact lines e.sequence (u64 (n + 1)) e.hash (rw s refl) i

  -- On an intact log file no gap is found, and reading the chain's state gives what follows its last
  -- entry.
  pub find_gaps-Intact :
      (s : FileSink)
      → Intact s.lines 1 ""
      → (find_gaps s.lines ≡ ok []) × (get_chain_state s ≡ ok (end_of s.lines 1 ""))
  unfolding find_gaps get_chain_state
  find_gaps-Intact s i =
      (gaps_from-Intact s.lines [] 1 "" i, chain_state_from-Intact s.lines 0 1 "" (omega arith) i)
