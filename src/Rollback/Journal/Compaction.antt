-- ===== src/Rollback/Journal/Compaction.antt =====
-- Compacting the journal drops finished entries alone, from memory and file together.
use project_whitequbit.Base.{
  ℕ, ◌-◌, ◌<◌, ◌≡◌, refl, ap, ◌∙◌, subst, Bool, true, false, none, some, List, [], ◌∷◌, max, ltb,
  leb, nat_eqb, if◌then◌else◌, number_key, text_key, ==_iff, arith, Bool-cases, inl, inr, is_some,
  All, any, keep, map, length, is_empty,
}
use project_whitequbit.Base.Hash.{Hashing}
use project_whitequbit.Base.Map
use project_whitequbit.Base.Map.{Map, values, Unique, get-remove, remove-Unique}
use project_whitequbit.Base.Map.Collect.{
  OwnKeys, collect, get-collect, values_found, remove-OwnKeys,
}
use project_whitequbit.Rollback.Journal.{
  JournalEntry, logged, Journal, load_lines, is_finished, insert_by_update, sort_by_update, take,
  to_remove, remove_all, compact,
}
use project_whitequbit.Rollback.Journal.Durability.{own_id, Stored, Verified, IsDurable}

module _ {D : Type 0} where
  abbrev pub lists_id : ℕ → List (JournalEntry D) → Bool
  lists_id id es = any (λ e. nat_eqb e.id id) es

  get-remove_all :
      (id : ℕ) (es : List (JournalEntry D)) (m : Stored D)
      → Map.get id (remove_all es m) ≡ (if lists_id id es then none else Map.get id m)
  unfolding remove_all
  get-remove_all id [] m = refl
  get-remove_all id (e ∷ es) m =
      ground (arith, get-remove_all id es (Map.remove e.id m), get-remove e.id id m)

  remove_all-Unique :
      (es : List (JournalEntry D)) (m : Stored D) → Unique m → Unique (remove_all es m)
  unfolding remove_all
  remove_all-Unique [] m u = u
  remove_all-Unique (e ∷ es) m u = remove_all-Unique es (Map.remove e.id m) (remove-Unique e.id m u)

  remove_all-OwnKeys :
      (es : List (JournalEntry D)) (m : Stored D)
      → OwnKeys own_id m
      → OwnKeys own_id (remove_all es m)
  unfolding remove_all
  remove_all-OwnKeys [] m o = o
  remove_all-OwnKeys (e ∷ es) m o =
      remove_all-OwnKeys es (Map.remove e.id m) (remove-OwnKeys own_id e.id m o)

  -- The entries to remove are finished ones of the map.
  module _ (P : JournalEntry D → Type 0) where
    keep-All :
        (p : JournalEntry D → Bool) (es : List (JournalEntry D))
        → All P es
        → All (λ e. P e × (p e ≡ true)) (keep p es)
    keep-All p [] h = tt
    keep-All p (e ∷ es) h = elim (Bool-cases (p e)) [
      | inl q ↦ rw q ((h.0, q), keep-All p es h.1)
      | inr q ↦ rw q (keep-All p es h.1)
    ]

    insert_by_update-All :
        (e : JournalEntry D) (es : List (JournalEntry D))
        → P e
        → All P es
        → All P (insert_by_update e es)
    unfolding insert_by_update
    insert_by_update-All e [] h k = (h, tt)
    insert_by_update-All e (x ∷ xs) h k = elim (Bool-cases (leb e.updated_at x.updated_at)) [
      | inl q ↦ rw q (h, k)
      | inr q ↦ rw q (k.0, insert_by_update-All e xs h k.1)
    ]

    sort_by_update-All : (es : List (JournalEntry D)) → All P es → All P (sort_by_update es)
    unfolding sort_by_update
    sort_by_update-All [] h = tt
    sort_by_update-All (e ∷ es) h =
        insert_by_update-All e (sort_by_update es) h.0 (sort_by_update-All es h.1)

    take-All : (n : ℕ) (es : List (JournalEntry D)) → All P es → All P (take n es)
    take-All n [] h = tt
    take-All n (e ∷ es) h = elim (Bool-cases (nat_eqb n 0)) [
      | inl q ↦ rw q tt
      | inr q ↦ rw q (h.0, take-All (n - 1) es h.1)
    ]

  abbrev Removable : Stored D → JournalEntry D → Type 0
  Removable m e = (Map.get e.id m ≡ some e) × (is_finished e.state ≡ true)

  to_remove-Removable :
      (j : Journal D) (keep_last : ℕ)
      → Unique j.entries
      → OwnKeys own_id j.entries
      → All (Removable j.entries) (to_remove j keep_last)
  unfolding to_remove
  to_remove-Removable j keep_last u o =
      let finished = keep (λ e. is_finished e.state) (values j.entries) in
      let sorted = sort_by_update finished in
      let all = sort_by_update-All (Removable j.entries) finished (
        keep-All (λ e. Map.get e.id j.entries ≡ some e) (λ e. is_finished e.state)
          (values j.entries) (values_found own_id j.entries u o)) in
      elim (Bool-cases (ltb keep_last (length sorted))) [
        | inl q ↦ rw q (take-All (Removable j.entries) (length sorted - keep_last) sorted all)
        | inr q ↦ rw q tt
      ]

  unfinished_not_listed :
      (m : Stored D) (id : ℕ) (e : JournalEntry D) (es : List (JournalEntry D))
      → Map.get id m ≡ some e
      → is_finished e.state ≡ false
      → All (Removable m) es
      → lists_id id es ≡ false
  unfinished_not_listed m id e [] q f h = refl
  unfinished_not_listed m id e (x ∷ es) q f h = elim (Bool-cases (nat_eqb x.id id)) [
    | inr other ↦ rw other (unfinished_not_listed m id e es q f h.1)
    | inl same ↦
        let eq : x.id ≡ id = (==_iff x.id id).0 same in
        let found : Map.get id m ≡ some x = subst (λ k. Map.get k m ≡ some x) eq h.0.0 in
        absurd (cc (found, q, f, h.0.1))
  ]

  -- Compaction leaves every entry that is still prepared, or whose rollback failed, in memory.
  pub compact_keeps_unfinished :
      (keep_last : ℕ) (j : Journal D) (id : ℕ) (e : JournalEntry D)
      → Unique j.entries
      → OwnKeys own_id j.entries
      → Map.get id j.entries ≡ some e
      → is_finished e.state ≡ false
      → Map.get id (compact keep_last j).0.entries ≡ some e
  unfolding compact
  compact_keeps_unfinished keep_last j id e u o found open_still = ground (
    arith,
    get-remove_all id (to_remove j keep_last) j.entries,
    unfinished_not_listed j.entries id e (to_remove j keep_last) found open_still
        (to_remove-Removable j keep_last u o),
    found,
  )

-- The identifiers of a map's values lie below a number.
abbrev AllBelow : {D : Type 0} → ℕ → Stored D → Type 0
AllBelow n [] = Unit
AllBelow n ((id, e) ∷ m) = (e.id < n) × AllBelow n m

AllBelow-keys :
    {D : Type 0} (n : ℕ) (m : Stored D)
    → OwnKeys own_id m
    → ((id : ℕ) → is_some (Map.get id m) ≡ true → id < n)
    → AllBelow n m
unfolding Map.get
AllBelow-keys n [] o b = tt
AllBelow-keys n ((k, e) ∷ m) o b =
    (rw o.0 (b k (ground arith)), AllBelow-keys n m o.1 (λ id h. b id (ground arith)))

module _ {D : Type 0} (hashing : Hashing D) where
  -- Loading the lines of a map's values.
  load_values :
      (m n : Stored D) (c next : ℕ)
      → Verified hashing m
      → AllBelow next m
      → c < next
      → ((load_lines hashing (map logged (values m)) (n, c)).0 ≡ collect own_id (values m) n)
        × ((load_lines hashing (map logged (values m)) (n, c)).1 < next)
  unfolding load_lines collect
  load_values [] n c next v b lt = (refl, lt)
  load_values ((k, e) ∷ m) n c next v b lt =
      rw (v.0, load_lines, collect)
        (load_values m (Map.insert e.id e n) (max c e.id) next v.1 b.1 (omega (arith, b.0)))

  remove-Verified :
      (id : ℕ) (m : Stored D) → Verified hashing m → Verified hashing (Map.remove id m)
  unfolding Map.remove
  remove-Verified id [] v = tt
  remove-Verified id ((k, e) ∷ m) v = ground (arith, remove-Verified id m v.1)

  remove_all-Verified :
      (es : List (JournalEntry D)) (m : Stored D)
      → Verified hashing m
      → Verified hashing (remove_all es m)
  unfolding remove_all
  remove_all-Verified [] m v = v
  remove_all-Verified (e ∷ es) m v =
      remove_all-Verified es (Map.remove e.id m) (remove-Verified e.id m v)

  below_after :
      (es : List (JournalEntry D)) (j : Journal D) (id : ℕ)
      → IsDurable hashing j
      → is_some (Map.get id (remove_all es j.entries)) ≡ true
      → id < j.next_id
  below_after es j id d h = ground (arith, get-remove_all id es j.entries, d.below id)

  rewritten-IsDurable :
      (es : List (JournalEntry D)) (j : Journal D)
      → IsDurable hashing j
      → IsDurable hashing (record j {
        lines = map logged (values (remove_all es j.entries));
        entries = remove_all es j.entries;
        healthy = true;
        leaves_line = j.leaves_line;
      })
  rewritten-IsDurable es j d =
      let m = remove_all es j.entries in
      let u = remove_all-Unique es j.entries d.unique in
      let o = remove_all-OwnKeys es j.entries d.own in
      let v = remove_all-Verified es j.entries d.verified in
      let b = AllBelow-keys j.next_id m o (λ id h. below_after es j id d h) in
      let loaded = load_values m [] 0 j.next_id v b (omega (arith, d.last_below)) in
      record {
        loads = λ id. ap (Map.get id) loaded.0 ∙ get-collect own_id id m u o;
        last_below = loaded.1;
        below = λ id h. below_after es j id d h;
        unique = u;
        own = o;
        verified = v;
      }

  is_empty_nil : (es : List (JournalEntry D)) → is_empty es ≡ true → es ≡ []
  is_empty_nil [] h = refl
  is_empty_nil (e ∷ es) h = ground arith

  -- Compacting on a file system that takes the write keeps file and memory in step.
  pub compact-IsDurable :
      (keep_last : ℕ) (j : Journal D)
      → j.healthy ≡ true
      → IsDurable hashing j
      → IsDurable hashing (compact keep_last j).0
  unfolding compact
  compact-IsDurable keep_last j well d = elim (Bool-cases (is_empty (to_remove j keep_last))) [
    | inl q ↦ rw (q, is_empty_nil (to_remove j keep_last) q) d
    | inr q ↦ rw (q, well) (rewritten-IsDurable (to_remove j keep_last) j d)
  ]
