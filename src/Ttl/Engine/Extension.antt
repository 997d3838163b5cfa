-- ===== src/Ttl/Engine/Extension.antt =====
-- Extending a rule leaves it in the bucket of its old expiry.
use project_whitequbit.Base.{
  ℕ, ◌+◌, ◌≤◌, ◌≡◌, refl, ap, ◌∙◌, Bool, true, false, not, Option, none, some, ltb, if◌then◌else◌,
  arith, ◌==◌, text_key, ==_iff, u64, Duration, as_millis, as_secs, from_secs, ok,
}
use project_whitequbit.Base.Map
use project_whitequbit.Base.Map.{Map, get-insert, get-insert_self}
use project_whitequbit.Ttl.Entry
use project_whitequbit.Ttl.Entry.{RuleId, TtlEntry, is_pending}
use project_whitequbit.Ttl.Index.{
  indexed, indexed-insert, indexed-remove, index_insert, index_remove,
}
use project_whitequbit.Ttl.Registry.{TtlRegistry, entries_expiring_before}
use project_whitequbit.Ttl.Registry.Consistency.{IsConsistent, keyed, update_expiration_found}
use project_whitequbit.Ttl.Registry.Deadlines.{lists, lists-expiring_before, indexed_by-indexed}
use project_whitequbit.Ttl.Engine.{
  TtlEngine, extend_registry, extend, extend_persisted, reschedule_timer,
}

module _ (r : TtlRegistry) (id : RuleId) (e : TtlEntry) (additional : Duration) (c : IsConsistent r)
    (found : Map.get id r.by_rule_id ≡ some e) where
  abbrev moved : TtlEntry
  moved = record (Entry.extend e additional) {
    generation = u64 ((Entry.extend e additional).generation + 1);
  }

  abbrev extended : TtlRegistry
  extended = record {
    by_rule_id = Map.insert id moved (Map.insert id (Entry.extend e additional) r.by_rule_id);
    by_expiration =
        index_insert moved.expires_at_ms id (index_remove moved.expires_at_ms id r.by_expiration);
    version = u64 (r.version + 1);
  }

  pub extend_registry_lem : extend_registry r id e additional ≡ (extended, ok tt)
  unfolding extend_registry
  extend_registry_lem =
      update_expiration_found
        (record r { by_rule_id = Map.insert id (Entry.extend e additional) r.by_rule_id }) id
        moved.expires_at_ms (Entry.extend e additional)
        (get-insert_self id (Entry.extend e additional) r.by_rule_id)

  old_bucket : indexed e.expires_at_ms id extended.by_expiration ≡ true
  old_bucket = ground (
    arith,
    indexed-insert moved.expires_at_ms id e.expires_at_ms id
        (index_remove moved.expires_at_ms id r.by_expiration),
    indexed-remove moved.expires_at_ms id e.expires_at_ms id r.by_expiration,
    c.agree e.expires_at_ms id,
    found,
  )

  pub get-extended :
      (j : RuleId)
      → Map.get j extended.by_rule_id ≡ (if id == j then some moved else Map.get j r.by_rule_id)
  get-extended j = ground (
    arith,
    get-insert id j moved (Map.insert id (Entry.extend e additional) r.by_rule_id),
    get-insert id j (Entry.extend e additional) r.by_rule_id,
  )

  extended-keyed : (j : RuleId) → keyed j (Map.get j extended.by_rule_id) ≡ true
  unfolding Entry.extend
  extended-keyed j = ground (arith, get-extended j, c.own_key j, c.own_key id, found, ==_iff id j)

  pub lists-extended :
      (deadline : ℕ)
      → e.expires_at_ms ≤ deadline
      → is_pending e.state ≡ true
      → lists id (entries_expiring_before extended deadline) ≡ true
  unfolding entries_expiring_before Entry.extend
  lists-extended deadline le pending = ground (
    arith,
    lists-expiring_before extended.by_rule_id extended-keyed deadline id extended.by_expiration,
    indexed_by-indexed extended.by_rule_id extended-keyed deadline id e.expires_at_ms
        extended.by_expiration old_bucket le,
    get-extended id,
    ==_iff id id,
  )

-- The source's test of an extension against the longest time to live.
abbrev pub within_max : {W : Type 0} → TtlEngine W → TtlEntry → Duration → Bool
within_max eng e additional =
    not (ltb eng.config.max_ttl (from_secs (u64 (e.original_ttl_secs + as_secs additional))))

extend_persisted-registry :
    {W : Type 0} (eng : TtlEngine W) (o : Option TtlEntry) (now : ℕ)
    → (extend_persisted eng o now).0.registry ≡ eng.registry
unfolding extend_persisted reschedule_timer
extend_persisted-registry eng none now = refl
extend_persisted-registry eng (some entry) now = ground arith

extend-registry :
    {W : Type 0} (eng : TtlEngine W) (id : RuleId) (e : TtlEntry) (additional : Duration) (now : ℕ)
    (c : IsConsistent eng.registry) (found : Map.get id eng.registry.by_rule_id ≡ some e)
    → within_max eng e additional ≡ true
    → (extend eng id additional now).0.registry ≡ extended eng.registry id e additional c found
unfolding extend
extend-registry eng id e additional now c found fits =
    let tested : ltb eng.config.max_ttl (from_secs (u64 (e.original_ttl_secs + as_secs additional)))
        ≡ false =
      ground arith in
    rw (found, extend)
      (rw tested (
        rw (extend_registry_lem eng.registry id e additional c found) (
          extend_persisted-registry
            (record eng { registry = (extend_registry eng.registry id e additional).0 }) _ now
          ∙ ap (λ p. p.0) (extend_registry_lem eng.registry id e additional c found))))

-- Extending a pending rule within the longest time to live moves the expiry of its entry, and yet
-- every deadline from the old expiry on still returns the rule: the old bucket is never left.
pub extend_keeps_old_deadline :
    {W : Type 0} (eng : TtlEngine W) (id : RuleId) (e : TtlEntry) (additional : Duration)
    (now deadline : ℕ)
    → IsConsistent eng.registry
    → Map.get id eng.registry.by_rule_id ≡ some e
    → within_max eng e additional ≡ true
    → is_pending e.state ≡ true
    → e.expires_at_ms ≤ deadline
    → let after = (extend eng id additional now).0.registry in
      (Map.get id after.by_rule_id
        ≡ some (record e {
          expires_at_ms = u64 (e.expires_at_ms + u64 (as_millis additional));
          generation = u64 (u64 (e.generation + 1) + 1);
        }))
      × (lists id (entries_expiring_before after deadline) ≡ true)
extend_keeps_old_deadline eng id e additional now deadline c found fits pending le =
    rw (extend-registry eng id e additional now c found fits) (
      unfold Entry.extend in
          ground (arith, get-extended eng.registry id e additional c found id, ==_iff id id),
      lists-extended eng.registry id e additional c found deadline le pending,
    )
