-- ===== src/Ttl/Expiry/Outcomes.antt =====
-- What processing one expired entry leaves behind, for each answer of the firewall.
use project_whitequbit.Base.{
  ℕ, ◌+◌, ◌<◌, ◌≡◌, refl, ap, ◌∙◌, true, false, none, some, arith, text_key, ==_iff, u64, u64_mod,
  Result, ok, err, inl, inr, ◌⊎◌,
}
use project_whitequbit.Base.Map
use project_whitequbit.Base.Map.{Map, get-insert, get-remove, get-insert_self}
use project_whitequbit.Ttl.Entry
use project_whitequbit.Ttl.Entry.{
  RuleId, TtlError, firewall_error, FirewallError, rule_missing, command_failed, expiring, failed,
  TtlEntry, transition,
}
use project_whitequbit.Ttl.Registry.{TtlRegistry, mark, mark_expiring, mark_expired, mark_failed}
use project_whitequbit.Ttl.Persister.{
  Persister, update as update_op, remove as remove_op, apply_op, persist_update, remove_entry,
}
use project_whitequbit.Ttl.Coordinator.{
  Coordinator, active, ttl_removing, removed, state_of, try_acquire_ttl_removal, complete_removal,
  release_removal,
}
use project_whitequbit.Ttl.Engine.{TtlEngine}
use project_whitequbit.Ttl.Engine.Durability.{IsDurable, logged-IsDurable, Durable}
use project_whitequbit.Ttl.Expiry.{conclude, process_single_expiration}

-- A removal that the TTL engine can claim.
abbrev pub IsFree : Coordinator → RuleId → Type 0
IsFree c id = (c.rollback_running ≡ false) × (state_of (Map.get id c.removal_states) ≡ active)

claim :
    (c : Coordinator) (id : RuleId)
    → IsFree c id
    → try_acquire_ttl_removal c id
      ≡ (record c { removal_states = Map.insert id ttl_removing c.removal_states }, ok tt)
unfolding try_acquire_ttl_removal
claim c id (idle, free) = rw (idle, free)

-- Marking an entry as expiring or failed, in the registry and in the log.
marked-IsDurable :
    (st : Entry.TtlState) (r : TtlRegistry) (p : Persister) (id : RuleId) (e : TtlEntry) (now : ℕ)
    → Map.get id r.by_rule_id ≡ some e
    → e.generation + 1 < u64_mod
    → p.next_seq + 1 < u64_mod
    → p.healthy ≡ true
    → IsDurable r p
    → IsDurable (mark st r id).0 (persist_update id st (u64 (e.generation + 1)) now p).0
unfolding persist_update
marked-IsDurable st r p id e now found young room well d =
    logged-IsDurable (update_op id st (u64 (e.generation + 1))) now r (mark st r id).0 p refl room
      well d
      λ j.
        unfold apply_op mark in
        ground (
          arith,
          get-insert id j (record e { state = st; generation = u64 (e.generation + 1) }) d.entries,
          get-insert id j (record e { state = st; generation = u64 (e.generation + 1) })
              r.by_rule_id,
          d.agrees j,
          d.agrees id,
          found,
          ==_iff id j,
        )

dropped-IsDurable :
    (r : TtlRegistry) (p : Persister) (id : RuleId) (now : ℕ)
    → p.next_seq + 1 < u64_mod
    → p.healthy ≡ true
    → IsDurable r p
    → IsDurable (mark_expired r id).0 (remove_entry id now p).0
unfolding remove_entry
dropped-IsDurable r p id now room well d =
    logged-IsDurable (remove_op id) now r (mark_expired r id).0 p refl room well d λ j.
      unfold apply_op mark_expired in
      ground (
        arith,
        get-remove id j d.entries,
        get-remove id j r.by_rule_id,
        d.agrees j,
        d.agrees id,
        ==_iff id j,
      )

get-mark :
    (st : Entry.TtlState) (r : TtlRegistry) (id : RuleId) (e : TtlEntry)
    → Map.get id r.by_rule_id ≡ some e
    → Map.get id (mark st r id).0.by_rule_id
      ≡ some (record e { state = st; generation = u64 (e.generation + 1) })
unfolding mark
get-mark st r id e q =
    rw (q, mark)
      (get-insert_self id (record e { state = st; generation = u64 (e.generation + 1) })
        r.by_rule_id)

-- `e` is registered, its removal free, the log in step and writable, and no counter about to wrap.
pub record IsReady {W : Type 0} (eng : TtlEngine W) (e : TtlEntry) : Type 0 where
  pub found : Map.get e.rule_id eng.registry.by_rule_id ≡ some e
  pub free : IsFree eng.coordinator e.rule_id
  pub well : eng.persister.healthy ≡ true
  pub room : eng.persister.next_seq + 2 < u64_mod
  pub young : e.generation + 2 < u64_mod
  pub in_step : Durable eng

module _ {W : Type 0} (remove_rule : RuleId → W → W × Result FirewallError (Unit {0})) where
  -- The engine when the firewall has answered.
  abbrev answered : TtlEngine W → TtlEntry → ℕ → TtlEngine W
  answered eng e now = record eng {
    registry = (mark expiring eng.registry e.rule_id).0;
    persister = (persist_update e.rule_id expiring (u64 (e.generation + 1)) now eng.persister).0;
    coordinator = record (eng.coordinator) {
      removal_states = Map.insert e.rule_id ttl_removing eng.coordinator.removal_states;
    };
    firewall = (remove_rule e.rule_id eng.firewall).0;
  }

  process_concludes :
      (eng : TtlEngine W) (e : TtlEntry) (now : ℕ)
      → IsReady eng e
      → process_single_expiration remove_rule eng e now
        ≡ conclude remove_rule (answered eng e now) e now (remove_rule e.rule_id eng.firewall).1
  unfolding process_single_expiration
  process_concludes eng e now h =
      rw (claim eng.coordinator e.rule_id h.free)
        (unfold mark_expiring persist_update in ground (arith, h.found, h.well))

  answered-IsDurable :
      (eng : TtlEngine W) (e : TtlEntry) (now : ℕ)
      → IsReady eng e
      → Durable (answered eng e now)
        × ((answered eng e now).persister.healthy ≡ true)
        × ((answered eng e now).persister.next_seq + 1 < u64_mod)
  answered-IsDurable eng e now h = (
    marked-IsDurable expiring eng.registry eng.persister e.rule_id e now h.found
        (omega (arith, h.young)) (omega (arith, h.room)) h.well h.in_step,
    unfold persist_update in ground (arith, h.well),
    unfold persist_update in ground (arith, h.well, h.room),
  )

  removed_ok :
      (id : RuleId) (now : ℕ) (p : Persister) → p.healthy ≡ true → (remove_entry id now p).1 ≡ ok tt
  unfolding remove_entry
  removed_ok id now p well = rw well

  concludes_gone :
      (eng : TtlEngine W) (e : TtlEntry) (now : ℕ) (answer : Result FirewallError (Unit {0}))
      → (answer ≡ ok tt) ⊎ (answer ≡ err rule_missing)
      → eng.persister.healthy ≡ true
      → conclude remove_rule eng e now answer ≡ (
        record eng {
          registry = (mark_expired eng.registry e.rule_id).0;
          persister = (remove_entry e.rule_id now eng.persister).0;
          coordinator = complete_removal eng.coordinator e.rule_id;
        },
        ok tt,
      )
  unfolding conclude
  concludes_gone eng e now answer (inl a) well =
      rw (a, conclude) (rw (removed_ok e.rule_id now eng.persister well))
  concludes_gone eng e now answer (inr a) well =
      rw (a, conclude) (rw (removed_ok e.rule_id now eng.persister well))

  concludes_failed :
      (eng : TtlEngine W) (e : TtlEntry) (now : ℕ) (answer : Result FirewallError (Unit {0}))
      → answer ≡ err command_failed
      → eng.persister.healthy ≡ true
      → conclude remove_rule eng e now answer ≡ (
        record eng {
          registry = (mark failed eng.registry e.rule_id).0;
          persister =
              (persist_update e.rule_id failed (u64 (e.generation + 2)) now eng.persister).0;
          coordinator = release_removal eng.coordinator e.rule_id;
        },
        err (firewall_error command_failed),
      )
  unfolding conclude mark_failed
  concludes_failed eng e now answer a well =
      rw (a, conclude) (unfold persist_update in ground (arith, well))

  -- When the firewall removes the rule, or no longer has it, processing a ready entry succeeds: the
  -- rule leaves the registry and the log, which stay in step, and is noted as removed.
  pub process_removes :
      (eng : TtlEngine W) (e : TtlEntry) (now : ℕ)
      → IsReady eng e
      → ((remove_rule e.rule_id eng.firewall).1 ≡ ok tt)
        ⊎ ((remove_rule e.rule_id eng.firewall).1 ≡ err rule_missing)
      → let (after, r) = process_single_expiration remove_rule eng e now in
        (r ≡ ok tt)
        × (after.firewall ≡ (remove_rule e.rule_id eng.firewall).0)
        × (Map.get e.rule_id after.registry.by_rule_id ≡ none)
        × Durable after
        × (Map.get e.rule_id after.coordinator.removal_states ≡ some removed)
  process_removes eng e now h answer =
      let (d, well, room) = answered-IsDurable eng e now h in
      rw (process_concludes eng e now h) (
        rw (concludes_gone (answered eng e now) e now _ answer well) (
          refl,
          refl,
          unfold mark_expired in
              ground (
                arith,
                get-mark expiring eng.registry e.rule_id e h.found,
                get-remove e.rule_id e.rule_id (answered eng e now).registry.by_rule_id,
                ==_iff e.rule_id e.rule_id,
              ),
          dropped-IsDurable (answered eng e now).registry (answered eng e now).persister e.rule_id
              now room well d,
          unfold complete_removal in
              get-insert_self e.rule_id removed (answered eng e now).coordinator.removal_states,
        ))

  -- When the firewall command fails, processing a ready entry reports it: the entry stays registered
  -- as failed, in the registry and the log alike, and its removal is free for the next tick.
  pub process_retries :
      (eng : TtlEngine W) (e : TtlEntry) (now : ℕ)
      → IsReady eng e
      → (remove_rule e.rule_id eng.firewall).1 ≡ err command_failed
      → let (after, r) = process_single_expiration remove_rule eng e now in
        (r ≡ err (firewall_error command_failed))
        × (after.firewall ≡ (remove_rule e.rule_id eng.firewall).0)
        × (Map.get e.rule_id after.registry.by_rule_id
            ≡ some (record e { state = failed; generation = e.generation + 2 }))
        × Durable after
        × IsFree after.coordinator e.rule_id
  process_retries eng e now h answer =
      let (d, well, room) = answered-IsDurable eng e now h in
      let entry = record e { state = expiring; generation = u64 (e.generation + 1) } in
      let found = get-mark expiring eng.registry e.rule_id e h.found in
      let up : u64 (u64 (e.generation + 1) + 1) ≡ e.generation + 2 = omega (arith, h.young) in
      let up' : u64 (e.generation + 2) ≡ u64 (u64 (e.generation + 1) + 1) =
        omega (arith, h.young) in
      rw (process_concludes eng e now h) (
        rw (concludes_failed (answered eng e now) e now _ answer well) (
          refl,
          refl,
          get-mark failed (answered eng e now).registry e.rule_id entry found
              ∙ ap (λ g. some (record e { state = failed; generation = g })) up,
          rw up' (
              marked-IsDurable failed (answered eng e now).registry (answered eng e now).persister
                e.rule_id entry now found (omega (arith, h.young)) room well d),
          unfold release_removal in
              ground (
                arith,
                h.free.0,
                get-insert_self e.rule_id ttl_removing eng.coordinator.removal_states,
                get-insert_self e.rule_id active
                    (Map.insert e.rule_id ttl_removing eng.coordinator.removal_states),
              ),
        ))
