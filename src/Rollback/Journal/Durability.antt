-- ===== src/Rollback/Journal/Durability.antt =====
-- What the journal's file holds is what the journal's memory holds.
use project_whitequbit.Base.{
  ℕ, ◌+◌, ◌<◌, ◌≤◌, ◌≡◌, refl, ap, subst, String, Bool, true, false, none, some, ok, err, List, [],
  ◌∷◌, ◌++◌, u64, u64_mod, number_key, text_key, ==_iff, arith, Option-cases, inl, inr, is_some,
}
use project_whitequbit.Base.Hash.{Hashing}
use project_whitequbit.Base.Map
use project_whitequbit.Base.Map.{Map, values, Unique, get-insert, get-insert_self, insert-Unique}
use project_whitequbit.Base.Map.Collect.{OwnKeys, insert-OwnKeys, get-OwnKeys}
use project_whitequbit.Rollback.Journal.{
  JournalEntryState, io_error, JournalEntry, Line, logged, Journal, compute_checksum, verify,
  new_entry, set_state, load_line, load_lines, append_entry, prepare, mark,
}

abbrev pub own_id : {D : Type 0} → JournalEntry D → ℕ
own_id e = e.id

abbrev pub Stored : Type 0 → Type 0
Stored D = Map ℕ (JournalEntry D)

module _ {D : Type 0} (hashing : Hashing D) where
  pub verify-new_entry :
      (id : ℕ) (action_id action_type : String) (a c : D) (now : ℕ)
      → verify hashing (new_entry hashing id action_id action_type a c now) ≡ true
  unfolding verify new_entry compute_checksum
  verify-new_entry id action_id action_type a c now = (==_iff {K = String} _ _).1 refl

  pub verify-set_state :
      (s : JournalEntryState) (now : ℕ) (e : JournalEntry D)
      → verify hashing (set_state hashing s now e) ≡ true
  unfolding verify set_state compute_checksum
  verify-set_state s now e = (==_iff {K = String} _ _).1 refl

  pub load_lines-append :
      (xs ys : List (Line D)) (s : Stored D × ℕ)
      → load_lines hashing (xs ++ ys) s ≡ load_lines hashing ys (load_lines hashing xs s)
  unfolding load_lines
  load_lines-append [] ys s = refl
  load_lines-append (x ∷ xs) ys s = load_lines-append xs ys (load_line hashing x s)

  -- Every stored entry passes its checksum.
  abbrev pub Verified : Stored D → Type 0
  Verified [] = Unit
  Verified ((id, e) ∷ m) = (verify hashing e ≡ true) × Verified m

  pub insert-Verified :
      (id : ℕ) (e : JournalEntry D) (m : Stored D)
      → verify hashing e ≡ true
      → Verified m
      → Verified (Map.insert id e m)
  unfolding Map.insert
  insert-Verified id e [] h v = (h, tt)
  insert-Verified id e ((j, x) ∷ m) h v = ground (arith, insert-Verified id e m h v.1)

  -- The file loads to the entries in memory, key by key; identifiers lie below the next one.
  pub record IsDurable (j : Journal D) : Type 0 where
    pub loads : (id : ℕ) → Map.get id (load_lines hashing j.lines ([], 0)).0 ≡ Map.get id j.entries
    pub last_below : (load_lines hashing j.lines ([], 0)).1 < j.next_id
    pub below : (id : ℕ) → is_some (Map.get id j.entries) ≡ true → id < j.next_id
    pub unique : Unique j.entries
    pub own : OwnKeys own_id j.entries
    pub verified : Verified j.entries

  -- Memory and file after an entry that verifies is written to both.
  written-IsDurable :
      (j : Journal D) (e : JournalEntry D) (next : ℕ) (well late : Bool)
      → verify hashing e ≡ true
      → e.id < next
      → j.next_id ≤ next
      → IsDurable j
      → IsDurable (record j {
        lines = j.lines ++ logged e ∷ [];
        entries = Map.insert e.id e j.entries;
        next_id = next;
        healthy = well;
        leaves_line = late;
      })
  written-IsDurable j e next well late good lt le d = record {
    loads = λ id. rw (load_lines-append j.lines (logged e ∷ []) ([], 0)) (
        unfold load_lines in
        ground (
          arith,
          good,
          get-insert e.id id e (load_lines hashing j.lines ([], 0)).0,
          get-insert e.id id e j.entries,
          d.loads id,
        ));
    last_below =
        rw (load_lines-append j.lines (logged e ∷ []) ([], 0))
          (unfold load_lines in ground (arith, good, d.last_below));
    below = λ id. ground (arith, get-insert e.id id e j.entries, d.below id);
    unique = insert-Unique e.id e j.entries d.unique;
    own = insert-OwnKeys own_id e.id e j.entries refl d.own;
    verified = insert-Verified e.id e j.entries good d.verified;
  }

  -- The identifier of the next entry is not in memory.
  next-absent : (j : Journal D) → IsDurable j → Map.get j.next_id j.entries ≡ none
  next-absent j d = elim (Option-cases (Map.get j.next_id j.entries)) [
    | inl q ↦ q
    | inr (e, q) ↦ absurd (omega (arith, d.below j.next_id (ap is_some q)))
  ]

  -- Preparing an action keeps file and memory in step when the write succeeds, with the entry in both,
  -- and when it fails before the line is in the file. When it fails only at the synchronisation, the answer is an
  -- error and memory has no entry, and reading the file back gives one, as prepared.
  pub prepare-IsDurable :
      (action_id action_type : String) (a c : D) (now : ℕ) (j : Journal D)
      → j.next_id + 1 < u64_mod
      → IsDurable j
      → let e = new_entry hashing j.next_id action_id action_type a c now in
        let (after, answer) = prepare hashing action_id action_type a c now j in
        (j.healthy ≡ true
          → (answer ≡ ok j.next_id) × (Map.get j.next_id after.entries ≡ some e) × IsDurable after)
        × (j.healthy ≡ false
            → (answer ≡ err io_error)
              × (after.entries ≡ j.entries)
              × (j.leaves_line ≡ false → IsDurable after)
              × (j.leaves_line ≡ true
                  → (Map.get j.next_id after.entries ≡ none)
                    × (Map.get j.next_id (load_lines hashing after.lines ([], 0)).0 ≡ some e)))
  unfolding prepare append_entry new_entry
  prepare-IsDurable action_id action_type a c now j room d =
      let e = new_entry hashing j.next_id action_id action_type a c now in
      let good = verify-new_entry j.next_id action_id action_type a c now in
      let next : u64 (j.next_id + 1) ≡ j.next_id + 1 = omega arith in
      (
        λ well.
            rw (well, next)
              (
                refl,
                get-insert_self j.next_id e j.entries,
                written-IsDurable j e (j.next_id + 1) true j.leaves_line good (omega arith)
                    (omega arith) d,
              ),
        λ ill. rw ill (
          refl,
          ground arith,
          λ early.
              rw (early, next)
                (record {
                  loads = d.loads;
                  last_below = omega (arith, d.last_below);
                  below = λ id h. omega (arith, d.below id h);
                  unique = d.unique;
                  own = d.own;
                  verified = d.verified;
                }),
          λ late. rw late (
            next-absent j d,
            rw (load_lines-append j.lines (logged e ∷ []) ([], 0)) (
                unfold load_lines in
                ground (
                  arith,
                  good,
                  get-insert_self j.next_id e (load_lines hashing j.lines ([], 0)).0,
                )),
          ),
        ),
      )

  -- Marking an entry keeps file and memory in step when the write succeeds.
  pub mark-IsDurable :
      (s : JournalEntryState) (id now : ℕ) (j : Journal D)
      → j.healthy ≡ true
      → IsDurable j
      → IsDurable (mark hashing s id now j).0
  unfolding mark append_entry set_state
  mark-IsDurable s id now j well d = elim (Option-cases (Map.get id j.entries)) [
    | inl q ↦ rw (q, mark) d
    | inr (e, q) ↦
        rw (q, mark)
          (rw well (
            subst
              (λ k. IsDurable (record j {
                lines = j.lines ++ logged (set_state hashing s now e) ∷ [];
                entries = Map.insert k (set_state hashing s now e) j.entries;
                healthy = true;
                leaves_line = j.leaves_line;
              }))
              (get-OwnKeys own_id id e j.entries d.own q)
              (written-IsDurable j (set_state hashing s now e) j.next_id true j.leaves_line
                (verify-set_state s now e)
                (rw (get-OwnKeys own_id id e j.entries d.own q) (d.below id (ground (arith, q))))
                (omega arith) d)))
  ]
