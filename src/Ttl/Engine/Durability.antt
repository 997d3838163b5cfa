-- ===== src/Ttl/Engine/Durability.antt =====
-- The log of the TTL engine replays to what its registry holds.
use project_whitequbit.Base.{
  ℕ, ◌+◌, ◌<◌, ◌≡◌, refl, ap, true, false, ◌||◌, none, ltb, arith, text_key, ==_iff, u64_mod,
  Duration, Option-cases, inl, inr, is_some, Result, is_ok,
}
use project_whitequbit.Base.Map
use project_whitequbit.Base.Map.{Map, get-insert, get-remove, get-insert_self}
use project_whitequbit.Ttl.Entry.{RuleId, TtlError, TtlEntry, new_entry}
use project_whitequbit.Ttl.Registry
use project_whitequbit.Ttl.Registry.{TtlRegistry}
use project_whitequbit.Ttl.Persister.{
  Persister, TtlLogOp, register as register_op, remove as remove_op, apply_op, write_op, persist,
  remove_entry,
}
use project_whitequbit.Ttl.Persister.Replay.{Holds, is_marker, write_op_lem}
use project_whitequbit.Ttl.Engine.{
  TtlEngine, register, register_persisted, cancel, reschedule_timer,
}

-- Loading the log gives, for every rule, the entry of the registry.
pub record IsDurable (r : TtlRegistry) (p : Persister) : Type 0 where
  pub entries : Map RuleId TtlEntry
  pub log : Holds p entries
  pub agrees : (id : RuleId) → Map.get id entries ≡ Map.get id r.by_rule_id

abbrev pub Durable : {W : Type 0} → TtlEngine W → Type 0
Durable eng = IsDurable eng.registry eng.persister

-- A logged operation beside the change of the registry that it describes.
pub logged-IsDurable :
    (op : TtlLogOp) (now : ℕ) (r r' : TtlRegistry) (p : Persister)
    → is_marker op ≡ false
    → p.next_seq + 1 < u64_mod
    → p.healthy ≡ true
    → (d : IsDurable r p)
    → ((id : RuleId) → Map.get id (apply_op op (d.entries, 0)).0 ≡ Map.get id r'.by_rule_id)
    → IsDurable r' (write_op op now p).0
logged-IsDurable op now r r' p plain room well d change = record {
  entries = (apply_op op (d.entries, 0)).0;
  log = ((write_op_lem op now p d.entries plain room d.log).0 well).1;
  agrees = change;
}

-- A failed write that leaves a line does the same to the log.
unsynced-IsDurable :
    (op : TtlLogOp) (now : ℕ) (r r' : TtlRegistry) (p : Persister)
    → is_marker op ≡ false
    → p.next_seq + 1 < u64_mod
    → p.healthy ≡ false
    → p.leaves_line ≡ true
    → (d : IsDurable r p)
    → ((id : RuleId) → Map.get id (apply_op op (d.entries, 0)).0 ≡ Map.get id r'.by_rule_id)
    → IsDurable r' (write_op op now p).0
unsynced-IsDurable op now r r' p plain room ill late d change = record {
  entries = (apply_op op (d.entries, 0)).0;
  log = ((write_op_lem op now p d.entries plain room d.log).1 ill).2 late;
  agrees = change;
}

-- A failed write that leaves no line changes nothing.
failed-IsDurable :
    (op : TtlLogOp) (now : ℕ) (r : TtlRegistry) (p : Persister)
    → is_marker op ≡ false
    → p.next_seq + 1 < u64_mod
    → p.healthy ≡ false
    → p.leaves_line ≡ false
    → IsDurable r p
    → IsDurable r (write_op op now p).0
failed-IsDurable op now r p plain room ill early d = record {
  entries = d.entries;
  log = ((write_op_lem op now p d.entries plain room d.log).1 ill).1 early;
  agrees = d.agrees;
}

module _ {W : Type 0} where
  register-fields :
      (eng : TtlEngine W) (entry : TtlEntry) (now : ℕ)
      → Map.get entry.rule_id eng.registry.by_rule_id ≡ none
      → let (q, r) = persist entry now eng.persister in
        let (after, answer) = register_persisted (record eng { persister = q }) entry r in
        (after.persister ≡ q)
        × (eng.persister.healthy ≡ true
            → (is_ok answer ≡ true) × (after.registry ≡ (Registry.register eng.registry entry).0))
        × (eng.persister.healthy ≡ false → (is_ok answer ≡ false) × (after.registry ≡ eng.registry))
  unfolding register_persisted persist reschedule_timer Registry.register
  register-fields eng entry now absent = (ground arith, ground arith, ground arith)

  -- What the logged registration does to the entries of the log.
  registered-agrees :
      (eng : TtlEngine W) (entry : TtlEntry) (d : Durable eng)
      → Map.get entry.rule_id eng.registry.by_rule_id ≡ none
      → (id : RuleId)
      → Map.get id (apply_op (register_op entry) (d.entries, 0)).0
        ≡ Map.get id (Registry.register eng.registry entry).0.by_rule_id
  unfolding apply_op Registry.register
  registered-agrees eng entry d absent id = ground (
    arith,
    get-insert entry.rule_id id entry d.entries,
    get-insert entry.rule_id id entry eng.registry.by_rule_id,
    d.agrees id,
    absent,
  )

  -- What becomes of the registration of an entry: it is in registry and log, in neither, or, when the write fails
  -- at the synchronisation, in the log alone.
  abbrev pub Registered : TtlEngine W → TtlEntry → TtlEngine W × Result TtlError (Unit {0}) → Type 0
  Registered eng entry (after, answer) =
      (eng.persister.healthy ≡ true
        → (is_ok answer ≡ true)
          × (after.registry ≡ (Registry.register eng.registry entry).0)
          × Durable after)
      × (eng.persister.healthy ≡ false
          → (is_ok answer ≡ false)
            × (after.registry ≡ eng.registry)
            × (eng.persister.leaves_line ≡ false → Durable after)
            × (eng.persister.leaves_line ≡ true
                → IsDurable (Registry.register eng.registry entry).0 after.persister))

  register_persisted-Registered :
      (eng : TtlEngine W) (entry : TtlEntry) (now : ℕ)
      → Map.get entry.rule_id eng.registry.by_rule_id ≡ none
      → eng.persister.next_seq + 1 < u64_mod
      → Durable eng
      → let (q, r) = persist entry now eng.persister in
        Registered eng entry (register_persisted (record eng { persister = q }) entry r)
  unfolding persist
  register_persisted-Registered eng entry now absent room d =
      let (same, added, kept) = register-fields eng entry now absent in
      let agrees = registered-agrees eng entry d absent in
      let then_registry = (Registry.register eng.registry entry).0 in
      let op = register_op entry in
      (
        λ well. (
          (added well).0,
          (added well).1,
          rw (same, (added well).1)
              (logged-IsDurable op now eng.registry then_registry eng.persister refl room well d
                agrees),
        ),
        λ ill. (
          (kept ill).0,
          (kept ill).1,
          λ early.
              rw (same, (kept ill).1)
                (failed-IsDurable op now eng.registry eng.persister refl room ill early d),
          λ late. rw same (
              unsynced-IsDurable op now eng.registry then_registry eng.persister refl room ill late
                d agrees),
        ),
      )

  -- Registering a rule that has no entry. A time to live that is refused changes nothing. One that is accepted
  -- puts the entry into the registry and the log when the write succeeds. When the write fails, the answer is an
  -- error and the registry stays; the log stays in step with it if no line was written, and
  -- replays to the registry with the entry if only the synchronisation failed.
  pub register-IsDurable :
      (eng : TtlEngine W) (id : RuleId) (ttl : Duration) (now : ℕ)
      → Map.get id eng.registry.by_rule_id ≡ none
      → eng.persister.next_seq + 1 < u64_mod
      → Durable eng
      → ((ltb ttl eng.config.min_ttl || ltb eng.config.max_ttl ttl) ≡ true
          → (is_ok (register eng id ttl now).1 ≡ false) × ((register eng id ttl now).0 ≡ eng))
        × ((ltb ttl eng.config.min_ttl || ltb eng.config.max_ttl ttl) ≡ false
            → Registered eng (new_entry id ttl now) (register eng id ttl now))
  unfolding register new_entry
  register-IsDurable eng id ttl now absent room d = (
    λ refused. ground (arith, refused),
    λ accepted.
        rw (accepted, register)
          (register_persisted-Registered eng (new_entry id ttl now) now absent room d),
  )

  cancel-fields :
      (eng : TtlEngine W) (id : RuleId) (now : ℕ)
      → ((cancel eng id now).registry ≡ (Registry.cancel eng.registry id).0)
        × (is_some (Map.get id eng.registry.by_rule_id) ≡ true
            → (cancel eng id now).persister ≡ (remove_entry id now eng.persister).0)
        × (is_some (Map.get id eng.registry.by_rule_id) ≡ false → (cancel eng id now) ≡ eng)
  unfolding cancel Registry.cancel
  cancel-fields eng id now = (ground arith, ground arith, ground arith)

  -- Cancelling a rule on a file system that takes the write keeps the log and the registry in step,
  -- and the rule has an entry in neither afterwards.
  pub cancel-IsDurable :
      (eng : TtlEngine W) (id : RuleId) (now : ℕ)
      → eng.persister.next_seq + 1 < u64_mod
      → eng.persister.healthy ≡ true
      → Durable eng
      → Durable (cancel eng id now) × (Map.get id (cancel eng id now).registry.by_rule_id ≡ none)
  unfolding remove_entry
  cancel-IsDurable eng id now room well d =
      let (reg, there, gone) = cancel-fields eng id now in
      elim (Option-cases (Map.get id eng.registry.by_rule_id)) [
        | inl q ↦ rw (gone (ap is_some q)) (d, q)
        | inr (e, q) ↦
            rw (reg, there (ap is_some q))
              (
                logged-IsDurable (remove_op id) now eng.registry (Registry.cancel eng.registry id).0
                    eng.persister refl room well d
                    (λ j.
                      unfold apply_op Registry.cancel in
                      ground (
                        arith,
                        get-remove id j d.entries,
                        get-remove id j eng.registry.by_rule_id,
                        d.agrees j,
                        q,
                      )),
                unfold Registry.cancel in
                    ground (arith, get-remove id id eng.registry.by_rule_id, ==_iff id id, q),
              )
      ]
