-- ===== src/Rollback/Recovery/Completeness.antt =====
-- After a recovery nothing is left to recover, in memory and after a restart.
use project_whitequbit.Base.{
  ℕ, ◌+◌, ◌≤◌, ◌≡◌, refl, ap, ◌∙◌, String, Bool, true, false, Option, none, some, List, [], ◌∷◌,
  ◌++◌, max, is_empty, ltb, map, keep, if◌then◌else◌, arith, Bool-cases, Option-cases, inl, inr,
  All, number_key, ◌==◌,
}
use project_whitequbit.Base.Hash.{Hashing}
use project_whitequbit.Base.Map
use project_whitequbit.Base.Map.{Map, values, Unique, get-insert, insert-Unique}
use project_whitequbit.Base.Map.Collect.{OwnKeys, values_found, insert-OwnKeys}
use project_whitequbit.Rollback.Journal.{
  JournalEntryState, JournalEntry, Line, blank, garbled, logged, Journal, is_prepared,
  uncommitted_of, get_uncommitted, verify, load_line, load_lines, open_journal, set_state,
  append_entry, mark, mark_rolled_back, mark_rollback_failed, rolled_back, rollback_failed,
}
use project_whitequbit.Rollback.Journal.Durability.{own_id, Stored, IsDurable, mark-IsDurable}
use project_whitequbit.Rollback.Compensator.{CompensationResult, Compensator, compensate_all}
use project_whitequbit.Rollback.Compensator.Order.{
  occurrences, entry_ids, result_ids, compensate_all-Descending,
}
use project_whitequbit.Rollback.Recovery.{needs_recovery, unwrap_or, process_results, recover}

module _ {D : Type 0} where
  abbrev pub prepared_at : Option (JournalEntry D) → Bool
  prepared_at none = false
  prepared_at (some e) = is_prepared e.state

  abbrev open_ones : List (JournalEntry D) → List (JournalEntry D)
  open_ones es = keep (λ e. is_prepared e.state) es

  no_open :
      (m : Stored D) (es : List (JournalEntry D))
      → ((id : ℕ) → prepared_at (Map.get id m) ≡ false)
      → All (λ e. Map.get e.id m ≡ some e) es
      → is_empty (map uncommitted_of (open_ones es)) ≡ true
  no_open m [] settled found = refl
  no_open m (e ∷ es) settled found =
      ground (arith, found.0, settled e.id, no_open m es settled found.1)

  -- Nothing is to be recovered when no entry of the map is prepared.
  settled_needs_none :
      (j : Journal D)
      → Unique j.entries
      → OwnKeys own_id j.entries
      → ((id : ℕ) → prepared_at (Map.get id j.entries) ≡ false)
      → needs_recovery j ≡ false
  unfolding needs_recovery get_uncommitted
  settled_needs_none j u o settled =
      rw (no_open j.entries (values j.entries) settled (values_found own_id j.entries u o)) refl

  prepared_occurs :
      (id : ℕ) (m : Stored D)
      → OwnKeys own_id m
      → prepared_at (Map.get id m) ≡ true
      → 1 ≤ occurrences id (entry_ids (map uncommitted_of (open_ones (values m))))
  unfolding Map.get
  prepared_occurs id [] o h = ground arith
  prepared_occurs id ((k, e) ∷ m) o h = ground (arith, o.0, prepared_occurs id m o.1)

module _ {D : Type 0} (hashing : Hashing D) where
  prepared-mark :
      (s : JournalEntryState) (k now id : ℕ) (j : Journal D)
      → is_prepared s ≡ false
      → prepared_at (Map.get id (mark hashing s k now j).0.entries)
        ≡ (if k == id then false else prepared_at (Map.get id j.entries))
  unfolding mark append_entry set_state
  prepared-mark s k now id j h = elim (Option-cases (Map.get k j.entries)) [
    | inl q ↦ rw (q, mark) (ground (arith, q))
    | inr (e, q) ↦
        rw (q, mark) (ground (arith, h, get-insert k id (set_state hashing s now e) j.entries))
  ]

  prepared-process_results :
      (detail : ℕ → String → String) (now id : ℕ) (rs : List CompensationResult) (j : Journal D)
      (n : ℕ) (ds : List String)
      → prepared_at (Map.get id (process_results hashing detail now rs (j, n, ds)).0.entries) ≡ (
          if ltb 0 (occurrences id (result_ids rs))
          then false
          else prepared_at (Map.get id j.entries))
  unfolding process_results mark_rolled_back mark_rollback_failed
  prepared-process_results detail now id [] j n ds = ground arith
  prepared-process_results detail now id (r ∷ rs) j n ds = elim (Bool-cases r.success) [
    | inl q ↦
        rw (q, process_results)
          (ground (
            arith,
            prepared-process_results detail now id rs (mark hashing rolled_back r.entry_id now j).0
                (n + 1) ds,
            prepared-mark rolled_back r.entry_id now id j refl,
          ))
    | inr q ↦
        rw (q, process_results)
          (ground (
            arith,
            prepared-process_results detail now id rs
                (mark hashing rollback_failed r.entry_id now j).0 n
                (ds ++ detail r.entry_id (unwrap_or r.error "Unknown error") ∷ []),
            prepared-mark rollback_failed r.entry_id now id j refl,
          ))
  ]

  abbrev WellKept : Stored D → Type 0
  WellKept m = Unique m × OwnKeys own_id m

  insert-WellKept :
      (e : JournalEntry D) (m : Stored D) → WellKept m → WellKept (Map.insert e.id e m)
  insert-WellKept e m h = (insert-Unique e.id e m h.0, insert-OwnKeys own_id e.id e m refl h.1)

  load_lines-WellKept :
      (lines : List (Line D)) (m : Stored D) (n : ℕ)
      → WellKept m
      → WellKept (load_lines hashing lines (m, n)).0
  unfolding load_lines load_line
  load_lines-WellKept [] m n h = h
  load_lines-WellKept (blank ∷ lines) m n h = load_lines-WellKept lines m n h
  load_lines-WellKept (garbled ∷ lines) m n h = load_lines-WellKept lines m n h
  load_lines-WellKept (logged e ∷ lines) m n h = elim (Bool-cases (verify hashing e)) [
    | inl q ↦
        rw (q, load_lines)
          (load_lines-WellKept lines (Map.insert e.id e m) (max n e.id) (insert-WellKept e m h))
    | inr q ↦ rw (q, load_lines) (load_lines-WellKept lines m n h)
  ]

  mark-healthy :
      (s : JournalEntryState) (k now : ℕ) (j : Journal D)
      → (mark hashing s k now j).0.healthy ≡ j.healthy
  unfolding mark append_entry
  mark-healthy s k now j = ground arith

  process_results-IsDurable :
      (detail : ℕ → String → String) (now : ℕ) (rs : List CompensationResult) (j : Journal D)
      (n : ℕ) (ds : List String)
      → j.healthy ≡ true
      → IsDurable hashing j
      → IsDurable hashing (process_results hashing detail now rs (j, n, ds)).0
  unfolding process_results mark_rolled_back mark_rollback_failed
  process_results-IsDurable detail now [] j n ds well d = d
  process_results-IsDurable detail now (r ∷ rs) j n ds well d = elim (Bool-cases r.success) [
    | inl q ↦
        rw (q, process_results)
          (process_results-IsDurable detail now rs _ (n + 1) ds
            (mark-healthy rolled_back r.entry_id now j ∙ well)
            (mark-IsDurable hashing rolled_back r.entry_id now j well d))
    | inr q ↦
        rw (q, process_results)
          (process_results-IsDurable detail now rs _ n (ds ++ _ ∷ [])
            (mark-healthy rollback_failed r.entry_id now j ∙ well)
            (mark-IsDurable hashing rollback_failed r.entry_id now j well d))
  ]

  module _ {W : Type 0} (detail : ℕ → String → String) (no_handler : String → String)
      (c : Compensator W D) where
    recover_settles :
        (now : ℕ) (j : Journal D) (w : W) (id : ℕ)
        → OwnKeys own_id j.entries
        → prepared_at (Map.get id (recover hashing detail no_handler c now (j, w)).0.0.entries)
          ≡ false
    unfolding recover get_uncommitted
    recover_settles now j w id o =
        let es = get_uncommitted j in
        let results = (compensate_all no_handler c es w).1 in
        let (_, _, occ, _, ids) = compensate_all-Descending no_handler c es w in
        ground (
          arith,
          prepared-process_results detail now id results j 0 [],
          ap (occurrences id) ids ∙ occ id,
          prepared_occurs id j.entries o,
        )

    recover-IsDurable :
        (now : ℕ) (j : Journal D) (w : W)
        → j.healthy ≡ true
        → IsDurable hashing j
        → IsDurable hashing (recover hashing detail no_handler c now (j, w)).0.0
    unfolding recover
    recover-IsDurable now j w well d = ground (
      arith,
      d,
      process_results-IsDurable detail now (compensate_all no_handler c (get_uncommitted j) w).1 j 0
          [] well d,
    )

    -- When the file system takes writes and file and memory agree, a recovery leaves nothing to
    -- recover: neither in memory, nor in a journal opened again on the file that it leaves. This
    -- holds whatever the handlers answer.
    pub recover_leaves_none :
        (now : ℕ) (j : Journal D) (w : W)
        → j.healthy ≡ true
        → IsDurable hashing j
        → let j' = (recover hashing detail no_handler c now (j, w)).0.0 in
          (needs_recovery j' ≡ false) × (needs_recovery (open_journal hashing j'.lines) ≡ false)
    unfolding open_journal
    recover_leaves_none now j w well d =
        let j' = (recover hashing detail no_handler c now (j, w)).0.0 in
        let d' = recover-IsDurable now j w well d in
        let settled = recover_settles now j w in
        let kept = load_lines-WellKept j'.lines [] 0 (tt, tt) in
        (
          settled_needs_none j' d'.unique d'.own (λ id. settled id d.own),
          settled_needs_none (open_journal hashing j'.lines) kept.0 kept.1
              (λ id. ap prepared_at (d'.loads id) ∙ settled id d.own),
        )
