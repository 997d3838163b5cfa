-- ===== src/Ttl/Registry/Consistency.antt =====
-- The two indexes of the TTL registry agree, and what the time-ordered one then tells.
use project_whitequbit.Base.{
  ℕ, ◌+◌, ◌≡◌, refl, Bool, true, false, Option, none, some, ◌%◌, ◌^◌, u64, ok, nat_eqb, arith,
  Option-cases, inl, inr, ◌==◌, text_key, ==_iff,
}
use project_whitequbit.Base.Map
use project_whitequbit.Base.Map.{Map, get-insert, get-remove, Unique, insert-Unique, remove-Unique}
use project_whitequbit.Ttl.Entry.{RuleId, TtlEntry, TtlState, transition}
use project_whitequbit.Ttl.Index.{
  index_insert, index_remove, indexed, indexed-insert, indexed-remove,
}
use project_whitequbit.Ttl.Index.Order.{
  SortedFrom, index_insert-SortedFrom, index_remove-SortedFrom,
}
use project_whitequbit.Ttl.Registry.{
  get_mut, TtlRegistry, empty_registry, register, cancel, mark, mark_expired, update_expiration,
}

-- Whether the entry found for a rule, if any, falls due at a time.
abbrev pub due_at : ℕ → Option TtlEntry → Bool
due_at t none = false
due_at t (some entry) = nat_eqb entry.expires_at_ms t

-- Whether a found entry is one of a given rule.
abbrev pub keyed : RuleId → Option TtlEntry → Bool
keyed id none = true
keyed id (some entry) = entry.rule_id == id

-- A rule stands in exactly the bucket of its entry's expiry, and an entry under its own rule.
pub record IsConsistent (r : TtlRegistry) : Type 0 where
  pub agree :
      (t : ℕ) (id : RuleId) → indexed t id r.by_expiration ≡ due_at t (Map.get id r.by_rule_id)
  pub own_key : (id : RuleId) → keyed id (Map.get id r.by_rule_id) ≡ true
  pub sorted : SortedFrom 0 r.by_expiration
  pub unique : Unique r.by_rule_id

pub empty-IsConsistent : IsConsistent empty_registry
unfolding indexed Map.get
empty-IsConsistent = record { agree = λ t id. refl; own_key = λ id. refl; sorted = tt; unique = tt }

pub register-IsConsistent :
    (r : TtlRegistry) (e : TtlEntry) → IsConsistent r → IsConsistent (register r e).0
unfolding register
register-IsConsistent r e c = elim (Option-cases (Map.get e.rule_id r.by_rule_id)) [
  | inr (old, q) ↦ rw (q, register) c
  | inl q ↦
      rw (q, register)
        (record {
          agree = λ t id. ground (
            arith,
            indexed-insert e.expires_at_ms e.rule_id t id r.by_expiration,
            get-insert e.rule_id id e r.by_rule_id,
            c.agree t id,
            q,
            ==_iff e.rule_id id,
          );
          own_key = λ id. ground (arith, get-insert e.rule_id id e r.by_rule_id, c.own_key id);
          sorted =
              index_insert-SortedFrom 0 e.expires_at_ms e.rule_id r.by_expiration (omega arith)
                c.sorted;
          unique = insert-Unique e.rule_id e r.by_rule_id c.unique;
        })
]

-- Taking an entry out of both indexes.
take_out-IsConsistent :
    (r : TtlRegistry) (id : RuleId) (e : TtlEntry) (v : ℕ)
    → IsConsistent r
    → Map.get id r.by_rule_id ≡ some e
    → IsConsistent (record {
      by_rule_id = Map.remove id r.by_rule_id;
      by_expiration = index_remove e.expires_at_ms id r.by_expiration;
      version = v;
    })
take_out-IsConsistent r id e v c q = record {
  agree = λ t j. ground (
    arith,
    indexed-remove e.expires_at_ms id t j r.by_expiration,
    get-remove id j r.by_rule_id,
    c.agree t j,
    q,
    ==_iff id j,
  );
  own_key = λ j. ground (arith, get-remove id j r.by_rule_id, c.own_key j);
  sorted = index_remove-SortedFrom 0 e.expires_at_ms id r.by_expiration c.sorted;
  unique = remove-Unique id r.by_rule_id c.unique;
}

pub cancel-IsConsistent :
    (r : TtlRegistry) (id : RuleId) → IsConsistent r → IsConsistent (cancel r id).0
unfolding cancel
cancel-IsConsistent r id c = elim (Option-cases (Map.get id r.by_rule_id)) [
  | inl q ↦ rw (q, cancel) c
  | inr (e, q) ↦ rw (q, cancel) (take_out-IsConsistent r id e _ c q)
]

pub mark_expired-IsConsistent :
    (r : TtlRegistry) (id : RuleId) → IsConsistent r → IsConsistent (mark_expired r id).0
unfolding mark_expired
mark_expired-IsConsistent r id c = elim (Option-cases (Map.get id r.by_rule_id)) [
  | inl q ↦ rw (q, mark_expired) c
  | inr (e, q) ↦ rw (q, mark_expired) (take_out-IsConsistent r id e _ c q)
]

-- A change of an entry that leaves its rule and its expiry alone.
pub get_mut-IsConsistent :
    (f : TtlEntry → TtlEntry) (r : TtlRegistry) (id : RuleId)
    → ((e : TtlEntry) → (f e).rule_id ≡ e.rule_id)
    → ((e : TtlEntry) → (f e).expires_at_ms ≡ e.expires_at_ms)
    → IsConsistent r
    → IsConsistent (get_mut f r id)
unfolding get_mut
get_mut-IsConsistent f r id same_rule same_time c = elim (Option-cases (Map.get id r.by_rule_id)) [
  | inl q ↦ rw (q, get_mut) c
  | inr (e, q) ↦
      rw (q, get_mut)
        (record {
          agree = λ t j.
              ground (
                arith,
                get-insert id j (f e) r.by_rule_id,
                c.agree t j,
                q,
                ==_iff id j,
                same_time e,
              );
          own_key = λ j. ground (
            arith,
            get-insert id j (f e) r.by_rule_id,
            c.own_key j,
            c.own_key id,
            q,
            ==_iff id j,
            same_rule e,
          );
          sorted = c.sorted;
          unique = insert-Unique id (f e) r.by_rule_id c.unique;
        })
]

pub mark-IsConsistent :
    (s : TtlState) (r : TtlRegistry) (id : RuleId) → IsConsistent r → IsConsistent (mark s r id).0
unfolding mark
mark-IsConsistent s r id c = elim (Option-cases (Map.get id r.by_rule_id)) [
  | inl q ↦ rw (q, mark) c
  | inr (e, q) ↦
      rw (q, mark)
        (record {
          agree = λ t j.
              ground
                (arith, get-insert id j (transition e s) r.by_rule_id, c.agree t j, q, ==_iff id j);
          own_key = λ j. ground (
            arith,
            get-insert id j (transition e s) r.by_rule_id,
            c.own_key j,
            c.own_key id,
            q,
            ==_iff id j,
          );
          sorted = c.sorted;
          unique = insert-Unique id (transition e s) r.by_rule_id c.unique;
        })
]

-- What an update of a rule that is there does.
pub update_expiration_found :
    (r : TtlRegistry) (id : RuleId) (t : ℕ) (e : TtlEntry)
    → Map.get id r.by_rule_id ≡ some e
    → update_expiration r id t ≡ (
      record {
        by_rule_id =
            Map.insert id
              (record e { expires_at_ms = t; generation = u64 (e.generation + 1) })
              r.by_rule_id;
        by_expiration = index_insert t id (index_remove e.expires_at_ms id r.by_expiration);
        version = u64 (r.version + 1);
      },
      ok tt,
    )
unfolding update_expiration
update_expiration_found r id t e q = rw (q, update_expiration)

pub update_expiration-IsConsistent :
    (r : TtlRegistry) (id : RuleId) (t : ℕ)
    → IsConsistent r
    → IsConsistent (update_expiration r id t).0
unfolding update_expiration
update_expiration-IsConsistent r id t c = elim (Option-cases (Map.get id r.by_rule_id)) [
  | inl q ↦ rw (q, update_expiration) c
  | inr (e, q) ↦
      rw (q, update_expiration)
        (record {
          agree = λ u j. ground (
            arith,
            get-insert id j
                (record e { expires_at_ms = t; generation = (e.generation + 1) % 2 ^ 64 })
                r.by_rule_id,
            indexed-insert t id u j (index_remove e.expires_at_ms id r.by_expiration),
            indexed-remove e.expires_at_ms id u j r.by_expiration,
            c.agree u j,
            q,
            ==_iff id j,
          );
          own_key = λ j. ground (
            arith,
            get-insert id j
                (record e { expires_at_ms = t; generation = (e.generation + 1) % 2 ^ 64 })
                r.by_rule_id,
            c.own_key j,
            c.own_key id,
            q,
            ==_iff id j,
          );
          sorted =
              index_insert-SortedFrom 0 t id (index_remove e.expires_at_ms id r.by_expiration)
                (omega arith)
                (index_remove-SortedFrom 0 e.expires_at_ms id r.by_expiration c.sorted);
          unique = insert-Unique id _ r.by_rule_id c.unique;
        })
]
