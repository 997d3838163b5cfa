-- ===== src/Ttl/Engine.antt =====
-- firewall/ttl.rs: `TtlEngine`. The firewall is `W` with `remove_rule`, the call of the
-- `FirewallBackend` trait. A call reads the clock once, as its argument `now`.
pub mod Extension
pub mod Durability
use project_whitequbit.Base.{
  ℕ, ◌+◌, ◌-◌, ◌*◌, Bool, true, false, Option, none, some, List, [], ◌∷◌, ◌++◌, ltb, leb, ◌||◌,
  if◌then◌else◌, u64, Duration, from_secs, as_secs, Result, ok, err, length, text_key,
}
use project_whitequbit.Base.Map
use project_whitequbit.Base.Map.{Map}
use project_whitequbit.Ttl.Entry
use project_whitequbit.Ttl.Entry.{
  RuleId, TtlError, invalid_ttl, rule_not_found, shut_down, coordination_error, firewall_error,
  FirewallError, rule_missing, command_failed, CoordinationError, rollback_in_progress,
  ttl_in_progress, already_removing, already_removed, TtlState, active, expiring, expired,
  cancelled, failed, TtlEntry, new_entry,
}
use project_whitequbit.Ttl.Registry
use project_whitequbit.Ttl.Registry.{TtlRegistry, empty_registry, next_expiration}
use project_whitequbit.Ttl.Persister
use project_whitequbit.Ttl.Persister.{Persister, Line, open_persister}
use project_whitequbit.Ttl.Coordinator.{
  Coordinator, try_acquire_ttl_removal, complete_removal, release_removal,
}

pub record TtlConfig : Type 0 where
  pub max_ttl : Duration
  pub min_ttl : Duration

abbrev pub default_config : TtlConfig
default_config = record { max_ttl = from_secs (30 * 24 * 60 * 60); min_ttl = from_secs 1 }

pub record RecoveryStats : Type 0 where
  pub loaded : ℕ
  pub expired_during_downtime : ℕ
  pub pending_retry : ℕ
  pub cleaned_up : ℕ

pub record TtlEngine (W : Type 0) : Type 0 where
  pub registry : TtlRegistry
  pub persister : Persister
  pub coordinator : Coordinator
  pub firewall : W
  pub config : TtlConfig
  pub next_wakeup_ms : ℕ
  pub is_shutdown : Bool

abbrev or_zero : Option ℕ → ℕ
or_zero none = 0
or_zero (some t) = t

-- The entry is extended in place, and then its expiry is updated to the value that it has by then.
unfoldable pub extend_registry :
    TtlRegistry → RuleId → TtlEntry → Duration → TtlRegistry × Result TtlError (Unit {0})
unfolding Registry.update_expiration
extend_registry r id entry additional =
    let entry' = Entry.extend entry additional in
    Registry.update_expiration (record r { by_rule_id = Map.insert id entry' r.by_rule_id }) id
      entry'.expires_at_ms

module _ {W : Type 0} where
  -- `TtlEngine::new`, with the lines of the file that it opens.
  unfoldable pub new_engine : TtlConfig → W → Coordinator → List Line → TtlEngine W
  unfolding open_persister
  new_engine config firewall coordinator lines = record {
    registry = empty_registry;
    persister = open_persister lines;
    coordinator = coordinator;
    firewall = firewall;
    config = config;
    next_wakeup_ms = 0;
    is_shutdown = false;
  }

  unfoldable pub reschedule_timer : TtlEngine W → TtlEngine W
  reschedule_timer eng = record eng { next_wakeup_ms = or_zero (next_expiration eng.registry) }

  -- After the entry has been persisted.
  register_persisted :
      TtlEngine W → TtlEntry → Result TtlError (Unit {0}) → TtlEngine W × Result TtlError (Unit {0})
  register_persisted eng entry (err e) = (eng, err e)
  register_persisted eng entry (ok _) =
      let (registry, r) = Registry.register eng.registry entry in
      let eng' = record eng { registry = registry } in
      elim r [ ok _ ↦ (reschedule_timer eng', ok tt) | err e ↦ (eng', err e) ]

  unfoldable pub register :
      TtlEngine W → RuleId → Duration → ℕ → TtlEngine W × Result TtlError (Unit {0})
  unfolding register_persisted reschedule_timer
  register eng id ttl now =
      if ltb ttl eng.config.min_ttl || ltb eng.config.max_ttl ttl
      then (eng, err invalid_ttl)
      else let entry = new_entry id ttl now in
        let (persister, r) = Persister.persist entry now eng.persister in
        register_persisted (record eng { persister = persister }) entry r

  -- The result of the persister is ignored.
  unfoldable pub cancel : TtlEngine W → RuleId → ℕ → TtlEngine W
  cancel eng id now =
      let (registry, cancelled_entry) = Registry.cancel eng.registry id in
      let eng' = record eng { registry = registry } in
      elim cancelled_entry [
        | none ↦ eng'
        | some _ ↦ record eng' { persister = (Persister.remove_entry id now eng.persister).0 }
      ]

  extend_persisted : TtlEngine W → Option TtlEntry → ℕ → TtlEngine W × Result TtlError (Unit {0})
  extend_persisted eng none now = (reschedule_timer eng, ok tt)
  extend_persisted eng (some entry) now =
      let (persister, r) = Persister.persist entry now eng.persister in
      let eng' = record eng { persister = persister } in
      elim r [ ok _ ↦ (reschedule_timer eng', ok tt) | err e ↦ (eng', err e) ]

  unfoldable pub extend :
      TtlEngine W → RuleId → Duration → ℕ → TtlEngine W × Result TtlError (Unit {0})
  unfolding extend_persisted reschedule_timer
  extend eng id additional now = elim (Map.get id eng.registry.by_rule_id) [
    | none ↦ (eng, err (rule_not_found id))
    | some entry ↦
        if ltb eng.config.max_ttl (from_secs (u64 (entry.original_ttl_secs + as_secs additional)))
        then (eng, err invalid_ttl)
        else let (registry, r) = extend_registry eng.registry id entry additional in
          let eng' = record eng { registry = registry } in
          elim r [
            | err e ↦ (eng', err e)
            | ok _ ↦ extend_persisted eng' (Map.get id registry.by_rule_id) now
          ]
  ]

  unfoldable pub remaining : TtlEngine W → RuleId → ℕ → Option Duration
  unfolding Entry.remaining
  remaining eng id now = elim (Map.get id eng.registry.by_rule_id) [
    | none ↦ none
    | some entry ↦ Entry.remaining entry now
  ]

  -- Milliseconds until the next tick.
  unfoldable pub next_tick_deadline : TtlEngine W → ℕ → Option ℕ
  next_tick_deadline eng now = elim (next_expiration eng.registry) [
    | none ↦ none
    | some t ↦ some (if leb t now then 0 else t - now)
  ]

  unfoldable pub shutdown : TtlEngine W → TtlEngine W
  shutdown eng = record eng { is_shutdown = true }

  unfoldable pub compact : TtlEngine W → ℕ → TtlEngine W × Result TtlError (Unit {0})
  compact eng now =
      let (persister, r) =
        Persister.compact (Registry.list_active eng.registry) now eng.persister in
      (record eng { persister = persister }, r)
