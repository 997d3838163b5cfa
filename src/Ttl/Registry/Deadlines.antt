-- ===== src/Ttl/Registry/Deadlines.antt =====
-- What a consistent TTL registry tells of time: the entries that a deadline returns, and the next
-- wake-up.
use project_whitequbit.Base.{
  ℕ, ◌≤◌, ◌≡◌, refl, Bool, true, false, ◌&&◌, ◌||◌, Option, none, some, List, [], ◌∷◌, ◌++◌, leb,
  arith, Bool-cases, Option-cases, inl, inr, sym, ◌∙◌, ◌==◌, text_key, ==_iff, any, All, All-append,
  length, length-append, ◌+◌, if◌then◌else◌, subst,
}
use project_whitequbit.Base.Map
use project_whitequbit.Base.Map.{Map, get-insert, get-remove}
use project_whitequbit.Ttl.Entry.{RuleId, TtlEntry, is_pending}
use project_whitequbit.Ttl.Index.{Index, indexed, set_contains}
use project_whitequbit.Ttl.Index.Order.{first_key-le, first_key-indexed, first_key-none}
use project_whitequbit.Ttl.Registry.{
  TtlRegistry, next_expiration, entries_expiring_before, expiring_before, pending_of,
}
use project_whitequbit.Ttl.Registry.Consistency.{IsConsistent, due_at, keyed}

-- Whether a list of entries has one of a given rule.
abbrev pub lists : RuleId → List TtlEntry → Bool
lists id es = any (λ e. e.rule_id == id) es

-- Whether the entry found for a rule is pending and due by a deadline.
abbrev pub due_by : ℕ → Option TtlEntry → Bool
due_by deadline none = false
due_by deadline (some entry) = leb entry.expires_at_ms deadline && is_pending entry.state

abbrev pub pending_entry : Option TtlEntry → Bool
pending_entry none = false
pending_entry (some entry) = is_pending entry.state

lists-append :
    (id : RuleId) (xs ys : List TtlEntry) → lists id (xs ++ ys) ≡ (lists id xs || lists id ys)
lists-append id [] ys = refl
lists-append id (x ∷ xs) ys = ground (arith, lists-append id xs ys)

module _ (m : Map RuleId TtlEntry) (own_key : (id : RuleId) → keyed id (Map.get id m) ≡ true) where
  lists-pending_of :
      (id : RuleId) (ids : List RuleId)
      → lists id (pending_of m ids) ≡ (set_contains id ids && pending_entry (Map.get id m))
  unfolding pending_of set_contains
  lists-pending_of id [] = refl
  lists-pending_of id (x ∷ ids) = elim (Option-cases (Map.get x m)) [
    | inl q ↦ rw (q, pending_of) (ground (arith, lists-pending_of id ids, ==_iff x id, q))
    | inr (e, q) ↦
        let own : (e.rule_id == x) ≡ true = rw q at (own_key x) in
        rw (q, pending_of)
          (ground (
            arith,
            lists-pending_of id ids,
            own,
            ==_iff e.rule_id x,
            ==_iff e.rule_id id,
            ==_iff x id,
            q,
          ))
  ]

  -- Whether a bucket up to the deadline holds the rule.
  abbrev pub indexed_by : ℕ → RuleId → Index → Bool
  indexed_by deadline id [] = false
  indexed_by deadline id ((t, ids) ∷ rest) =
      (leb t deadline && set_contains id ids) || indexed_by deadline id rest

  pub lists-expiring_before :
      (deadline : ℕ) (id : RuleId) (idx : Index)
      → lists id (expiring_before m idx deadline)
        ≡ (indexed_by deadline id idx && pending_entry (Map.get id m))
  unfolding expiring_before
  lists-expiring_before deadline id [] = refl
  lists-expiring_before deadline id ((t, ids) ∷ rest) = ground (
    arith,
    lists-append id (pending_of m ids) (expiring_before m rest deadline),
    lists-pending_of id ids,
    lists-expiring_before deadline id rest,
  )

  -- What is indexed at one time is indexed by a deadline, and the other way round.
  pub indexed_by-indexed :
      (deadline : ℕ) (id : RuleId) (t : ℕ) (idx : Index)
      → indexed t id idx ≡ true
      → t ≤ deadline
      → indexed_by deadline id idx ≡ true
  unfolding indexed
  indexed_by-indexed deadline id t [] h le = cc
  indexed_by-indexed deadline id t ((u, ids) ∷ rest) h le =
      ground (arith, indexed_by-indexed deadline id t rest)

  indexed_by_time :
      (deadline : ℕ) (id : RuleId) (idx : Index)
      → indexed_by deadline id idx ≡ true
      → (t : ℕ) × (t ≤ deadline) × (indexed t id idx ≡ true)
  unfolding indexed
  indexed_by_time deadline id [] h = absurd (cc)
  indexed_by_time deadline id ((u, ids) ∷ rest) h =
      elim (Bool-cases (leb u deadline && set_contains id ids)) [
        | inl here ↦ (u, ground arith, ground arith)
        | inr other ↦
            let (t, le, at) = indexed_by_time deadline id rest (ground arith) in
            (t, le, ground arith)
      ]

indexed_by-eq-leb :
    (r : TtlRegistry) (c : IsConsistent r) (deadline : ℕ) (id : RuleId) (e : TtlEntry)
    → Map.get id r.by_rule_id ≡ some e
    → indexed_by r.by_rule_id c.own_key deadline id r.by_expiration ≡ leb e.expires_at_ms deadline
indexed_by-eq-leb r c deadline id e q =
    elim (Bool-cases (indexed_by r.by_rule_id c.own_key deadline id r.by_expiration)) [
      | inl found ↦
          let (t, le, at) =
            indexed_by_time r.by_rule_id c.own_key deadline id r.by_expiration found in
          ground (arith, c.agree t id, q, found, le, at)
      | inr missing ↦ ground (
        arith,
        c.agree e.expires_at_ms id,
        q,
        missing,
        indexed_by-indexed r.by_rule_id c.own_key deadline id e.expires_at_ms r.by_expiration,
      )
    ]

-- An entry of the map, under its own rule.
abbrev pub IsHeld : Map RuleId TtlEntry → TtlEntry → Type 0
IsHeld m e = Map.get e.rule_id m ≡ some e

-- How many places the index has up to a deadline.
abbrev pub places_until : ℕ → Index → ℕ
places_until deadline [] = 0
places_until deadline ((t, ids) ∷ rest) =
    let later = places_until deadline rest in if leb t deadline then length ids + later else later

module _ (m : Map RuleId TtlEntry) where
  own_rule :
      (id : RuleId) (e : TtlEntry) → Map.get id m ≡ some e → (e.rule_id == id) ≡ true → IsHeld m e
  own_rule id e q own = subst (λ k. Map.get k m ≡ some e) (sym ((==_iff e.rule_id id).0 own)) q

  pending_of-IsHeld :
      (ids : List RuleId)
      → ((id : RuleId) → keyed id (Map.get id m) ≡ true)
      → All (IsHeld m) (pending_of m ids) × (length (pending_of m ids) ≤ length ids)
  unfolding pending_of
  pending_of-IsHeld [] own = (tt, omega arith)
  pending_of-IsHeld (id ∷ ids) own =
      let (held, few) = pending_of-IsHeld ids own in
      elim (Option-cases (Map.get id m)) [
        | inl q ↦ rw (q, pending_of) (held, omega (arith, few))
        | inr (e, q) ↦ elim (Bool-cases (is_pending e.state)) [
          | inl p ↦
              rw (q, pending_of, p) ((own_rule id e q (rw q at (own id)), held), omega (arith, few))
          | inr p ↦ rw (q, pending_of, p) (held, omega (arith, few))
        ]
      ]

  expiring_before-IsHeld :
      (idx : Index) (deadline : ℕ)
      → ((id : RuleId) → keyed id (Map.get id m) ≡ true)
      → All (IsHeld m) (expiring_before m idx deadline)
        × (length (expiring_before m idx deadline) ≤ places_until deadline idx)
  unfolding expiring_before
  expiring_before-IsHeld [] deadline own = (tt, omega arith)
  expiring_before-IsHeld ((t, ids) ∷ rest) deadline own =
      let (held, few) = pending_of-IsHeld ids own in
      let (later_held, later_few) = expiring_before-IsHeld rest deadline own in
      elim (Bool-cases (leb t deadline)) [
        | inl q ↦
            rw (q, expiring_before)
              (
                All-append (IsHeld m) _ _ held later_held,
                omega (
                  arith,
                  few,
                  later_few,
                  length-append (pending_of m ids) (expiring_before m rest deadline),
                ),
              )
        | inr q ↦ rw (q, expiring_before) (later_held, later_few)
      ]

-- In a consistent registry a deadline returns an entry of a rule exactly when the rule's entry
-- expires by then and is active or failed. Every entry that is returned is the registry's entry of its
-- rule, unchanged, and there are no more of them than the index has places up to the deadline.
pub entries_expiring_before_exact :
    (r : TtlRegistry) (deadline : ℕ)
    → IsConsistent r
    → ((id : RuleId)
        → lists id (entries_expiring_before r deadline) ≡ due_by deadline (Map.get id r.by_rule_id))
      × All (IsHeld r.by_rule_id) (entries_expiring_before r deadline)
      × (length (entries_expiring_before r deadline) ≤ places_until deadline r.by_expiration)
unfolding entries_expiring_before
entries_expiring_before_exact r deadline c =
    let (held, few) = expiring_before-IsHeld r.by_rule_id r.by_expiration deadline c.own_key in
    (
      λ id.
          let found = lists-expiring_before r.by_rule_id c.own_key deadline id r.by_expiration in
          elim (Option-cases (Map.get id r.by_rule_id)) [
            | inl q ↦ ground (arith, found, q)
            | inr (e, q) ↦ ground (arith, found, q, indexed_by-eq-leb r c deadline id e q)
          ],
      held,
      few,
    )

-- In a consistent registry the next wake-up is the earliest expiry: it is the expiry of some
-- rule's entry and no entry expires before it, and only a registry without entries has none.
pub next_expiration_earliest :
    (r : TtlRegistry)
    → IsConsistent r
    → ((u : ℕ)
        → next_expiration r ≡ some u
        → ((id : RuleId) × (due_at u (Map.get id r.by_rule_id) ≡ true))
          × ((id : RuleId) (t : ℕ) → due_at t (Map.get id r.by_rule_id) ≡ true → u ≤ t))
      × (next_expiration r ≡ none → (id : RuleId) → Map.get id r.by_rule_id ≡ none)
unfolding next_expiration
next_expiration_earliest r c = (
  λ u e.
      let (id, at) = first_key-indexed r.by_expiration u c.sorted e in
      (
        (id, sym (c.agree u id) ∙ at),
        λ j t due. first_key-le r.by_expiration t u j c.sorted (c.agree t j ∙ due) e,
      ),
  λ e id. elim (Option-cases (Map.get id r.by_rule_id)) [
    | inl q ↦ q
    | inr (x, q) ↦ absurd (
        ground (
          arith,
          c.agree x.expires_at_ms id,
          q,
          first_key-none r.by_expiration x.expires_at_ms id e,
        ))
  ],
)
