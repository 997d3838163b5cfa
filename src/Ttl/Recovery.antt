-- ===== src/Ttl/Recovery.antt =====
-- firewall/ttl.rs: `TtlEngine::recover`, which reads the log after a restart.
pub mod Removal
use project_whitequbit.Base.{
  ℕ, ◌+◌, List, [], ◌∷◌, ◌++◌, leb, if◌then◌else◌, Result, ok, err, length,
}
use project_whitequbit.Ttl.Entry.{
  RuleId, TtlError, FirewallError, TtlState, active, expiring, expired, cancelled, failed, TtlEntry,
}
use project_whitequbit.Ttl.Registry
use project_whitequbit.Ttl.Persister
use project_whitequbit.Ttl.Engine.{TtlEngine, RecoveryStats, reschedule_timer}
use project_whitequbit.Ttl.Expiry.{process_all}

-- The state of the first loop: the engine, the entries to process, and the statistics.
pub record Sorting (W : Type 0) : Type 0 where
  pub engine : TtlEngine W
  pub expired_rules : List TtlEntry
  pub failed_rules : List TtlEntry
  pub stats : RecoveryStats

abbrev loaded_stats : ℕ → RecoveryStats
loaded_stats n = record {
  loaded = n;
  expired_during_downtime = 0;
  pending_retry = 0;
  cleaned_up = 0;
}

module _ {W : Type 0} where
  -- An active entry that is still valid goes to the registry, and the result is ignored.
  sort_active : Sorting W → TtlEntry → ℕ → Sorting W
  sort_active s entry now =
      if leb entry.expires_at_ms now
      then record s {
        expired_rules = s.expired_rules ++ entry ∷ [];
        stats = record (s.stats) { expired_during_downtime = s.stats.expired_during_downtime + 1 };
      }
      else record s {
        engine = record (s.engine) { registry = (Registry.register s.engine.registry entry).0 };
      }

  sort_interrupted : Sorting W → TtlEntry → Sorting W
  sort_interrupted s entry = record s {
    failed_rules = s.failed_rules ++ entry ∷ [];
    stats = record (s.stats) { pending_retry = s.stats.pending_retry + 1 };
  }

  sort_stale : Sorting W → TtlEntry → ℕ → Sorting W × Result TtlError (Unit {0})
  sort_stale s entry now =
      let (persister, r) = Persister.remove_entry entry.rule_id now s.engine.persister in
      let s' = record s { engine = record (s.engine) { persister = persister } } in
      elim r [
        | err e ↦ (s', err e)
        | ok _ ↦
            (record s' { stats = record (s.stats) { cleaned_up = s.stats.cleaned_up + 1 } }, ok tt)
      ]

  unfoldable pub sort_entry :
      TtlState → Sorting W → TtlEntry → ℕ → Sorting W × Result TtlError (Unit {0})
  unfolding sort_active sort_interrupted sort_stale
  sort_entry active s entry now = (sort_active s entry now, ok tt)
  sort_entry expiring s entry now = (sort_interrupted s entry, ok tt)
  sort_entry failed s entry now = (sort_interrupted s entry, ok tt)
  sort_entry expired s entry now = sort_stale s entry now
  sort_entry cancelled s entry now = sort_stale s entry now

  unfoldable pub sort_entries :
      List TtlEntry → ℕ → Sorting W → Sorting W × Result TtlError (Unit {0})
  unfolding sort_entry
  sort_entries [] now s = (s, ok tt)
  sort_entries (entry ∷ rest) now s =
      let (s', r) = sort_entry entry.state s entry now in
      elim r [ ok _ ↦ sort_entries rest now s' | err e ↦ (s', err e) ]

  abbrev start_sorting : TtlEngine W → ℕ → Sorting W
  start_sorting eng n = record {
    engine = eng;
    expired_rules = [];
    failed_rules = [];
    stats = loaded_stats n;
  }

module _ {W : Type 0} (remove_rule : RuleId → W → W × Result FirewallError (Unit {0})) where
  -- The second loop, and the timer.
  unfoldable pub process_sorted : Sorting W → ℕ → TtlEngine W
  process_sorted s now =
      reschedule_timer
        (process_all remove_rule s.engine (s.expired_rules ++ s.failed_rules) now 0).0

  after_sorting :
      Sorting W × Result TtlError (Unit {0}) → ℕ → TtlEngine W × Result TtlError RecoveryStats
  unfolding process_sorted
  after_sorting (s, err e) now = (s.engine, err e)
  after_sorting (s, ok _) now = (process_sorted s now, ok s.stats)

  after_load :
      TtlEngine W
      → ℕ
      → Result TtlError (List TtlEntry)
      → TtlEngine W × Result TtlError RecoveryStats
  unfolding after_sorting
  after_load eng now (err e) = (eng, err e)
  after_load eng now (ok entries) =
      after_sorting (sort_entries entries now (start_sorting eng (length entries))) now

  -- An error of the loading or of the cleanup ends the recovery before a rule is processed.
  unfoldable pub recover : TtlEngine W → ℕ → TtlEngine W × Result TtlError RecoveryStats
  unfolding after_load
  recover eng now = after_load eng now (Persister.load eng.persister)
