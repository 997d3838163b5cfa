-- ===== src/Ttl/Expiry.antt =====
-- firewall/ttl.rs: the part of `TtlEngine` that removes rules.
pub mod Outcomes
use project_whitequbit.Base.{
  ℕ, ◌+◌, Bool, true, false, Option, none, some, List, [], ◌∷◌, ◌++◌, leb, if◌then◌else◌, u64,
  Result, ok, err, length, text_key,
}
use project_whitequbit.Ttl.Entry.{
  RuleId, TtlError, shut_down, coordination_error, firewall_error, FirewallError, rule_missing,
  command_failed, CoordinationError, rollback_in_progress, ttl_in_progress, already_removing,
  already_removed, TtlState, active, expiring, expired, cancelled, failed, TtlEntry,
}
use project_whitequbit.Ttl.Registry
use project_whitequbit.Ttl.Registry.{
  mark_expiring, mark_expired, mark_failed, entries_expiring_before,
}
use project_whitequbit.Ttl.Persister
use project_whitequbit.Ttl.Persister.{persist_update, remove_entry}
use project_whitequbit.Ttl.Coordinator.{try_acquire_ttl_removal, complete_removal, release_removal}
use project_whitequbit.Ttl.Engine.{TtlEngine, reschedule_timer}

module _ {W : Type 0} (remove_rule : RuleId → W → W × Result FirewallError (Unit {0})) where
  abbrev Outcome : Type 0
  Outcome = TtlEngine W × Result TtlError (Unit {0})

  -- `let _ = mark_expired(id); persister.remove(id)?;`
  drop_entry : TtlEngine W → RuleId → ℕ → Outcome
  drop_entry eng id now =
      let (persister, r) = remove_entry id now eng.persister in
      (record eng { registry = (mark_expired eng.registry id).0; persister = persister }, r)

  abbrev complete : RuleId → Outcome → Outcome
  complete id (eng, err e) = (eng, err e)
  complete id (eng, ok _) =
      (record eng { coordinator = complete_removal eng.coordinator id }, ok tt)

  -- A failure is marked for a retry, and the removal released.
  keep_failed : TtlEngine W → TtlEntry → FirewallError → ℕ → Outcome
  keep_failed eng entry e now =
      let id = entry.rule_id in
      let (persister, r) =
        persist_update id failed (u64 (entry.generation + 2)) now eng.persister in
      let eng' = record eng { registry = (mark_failed eng.registry id).0; persister = persister } in
      elim r [
        | err e' ↦ (eng', err e')
        | ok _ ↦ (
          record eng' { coordinator = release_removal eng.coordinator id },
          err (firewall_error e),
        )
      ]

  -- The `match` on what the firewall answered.
  conclude : TtlEngine W → TtlEntry → ℕ → Result FirewallError (Unit {0}) → Outcome
  unfolding drop_entry keep_failed
  conclude eng entry now (ok _) = complete entry.rule_id (drop_entry eng entry.rule_id now)
  conclude eng entry now (err rule_missing) =
      complete entry.rule_id (drop_entry eng entry.rule_id now)
  conclude eng entry now (err command_failed) = keep_failed eng entry command_failed now

  -- With the entry marked as expiring.
  remove_marked : TtlEngine W → TtlEntry → ℕ → Result TtlError (Unit {0}) → Outcome
  unfolding conclude
  remove_marked eng entry now (err e) = (eng, err e)
  remove_marked eng entry now (ok _) =
      let (firewall, answer) = remove_rule entry.rule_id eng.firewall in
      conclude (record eng { firewall = firewall }) entry now answer

  mark_and_remove : TtlEngine W → TtlEntry → ℕ → Outcome
  unfolding remove_marked
  mark_and_remove eng entry now =
      let id = entry.rule_id in
      let (registry, r) = mark_expiring eng.registry id in
      elim r [
        | err e ↦ (record eng { registry = registry }, err e)
        | ok _ ↦
            let (persister, r') =
              persist_update id expiring (u64 (entry.generation + 1)) now eng.persister in
            remove_marked (record eng { registry = registry; persister = persister }) entry now r'
      ]

  -- The `match` on the coordinator's answer.
  after_claim : TtlEngine W → TtlEntry → ℕ → Result CoordinationError (Unit {0}) → Outcome
  unfolding mark_and_remove drop_entry
  after_claim eng entry now (ok _) = mark_and_remove eng entry now
  after_claim eng entry now (err rollback_in_progress) = (eng, ok tt)
  after_claim eng entry now (err already_removed) = drop_entry eng entry.rule_id now
  after_claim eng entry now (err e) = (eng, err (coordination_error e))

  unfoldable pub process_single_expiration : TtlEngine W → TtlEntry → ℕ → Outcome
  unfolding after_claim
  process_single_expiration eng entry now =
      let (coordinator, claim) = try_acquire_ttl_removal eng.coordinator entry.rule_id in
      after_claim (record eng { coordinator = coordinator }) entry now claim

  abbrev tally : Result TtlError (Unit {0}) → ℕ → ℕ
  tally (ok _) n = n + 1
  tally (err _) n = n

  -- The loop over the expired entries; failures are logged and passed over.
  unfoldable pub process_all : TtlEngine W → List TtlEntry → ℕ → ℕ → TtlEngine W × ℕ
  process_all eng [] now processed = (eng, processed)
  process_all eng (entry ∷ rest) now processed =
      let (eng', r) = process_single_expiration eng entry now in
      process_all eng' rest now (tally r processed)

  -- `none` while `wait_for_rollback` waits.
  unfoldable pub process_expirations : TtlEngine W → ℕ → Option (TtlEngine W × Result TtlError ℕ)
  unfolding process_all
  process_expirations eng now =
      if eng.is_shutdown
      then some (eng, err shut_down)
      else if eng.coordinator.rollback_running
      then none
      else let (eng', processed) =
          process_all eng (entries_expiring_before eng.registry now) now 0 in
        some (reschedule_timer eng', ok processed)
