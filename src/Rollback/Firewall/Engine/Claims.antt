-- ===== src/Rollback/Firewall/Engine/Claims.antt =====
-- What becomes of the claim that a rollback takes on a rule.
use project_whitequbit.Base.{
  ℕ, ◌+◌, ◌≡◌, refl, u64, Option, some, Result, ok, err, arith, text_key, Option-cases, inl, inr,
}
use project_whitequbit.Base.Hash.{Hashing}
use project_whitequbit.Base.Map
use project_whitequbit.Base.Map.{Map, get-insert_self}
use project_whitequbit.Ttl.Entry.{RuleId, rollback_in_progress}
use project_whitequbit.Ttl.Coordinator.{
  Coordinator, RemovalState, active, rollback_removing, removed, state_of, try_acquire_ttl_removal,
  try_acquire_rollback_removal, complete_removal, release_removal, end_rollback,
}
use project_whitequbit.Rollback.Firewall.Record.{
  FirewallRuleRecord, RuleRecordState, rolling_back, rolled_back, rollback_failed, manually_removed,
}
use project_whitequbit.Rollback.Firewall.Registry.{
  FirewallError, no_such_rule, command_failed, RollbackEngineError, rule_not_found,
  coordination_error, firewall_error, io_error, serialization_error, RuleRegistry,
  update_record_state,
}
use project_whitequbit.Rollback.Firewall.Log.{
  rolled_back as by_rollback, external_removal, state_changed, rule_removed, RollbackJournal,
  RollbackJournalOp, WriteOutcome, succeeds, unsynced, refused, written_as, write_op,
}
use project_whitequbit.Rollback.Firewall.Results.{
  RuleRollbackResult, removed_result, already_removed_result,
}
use project_whitequbit.Rollback.Firewall.Engine.{RollbackEngine, Step, and_then, note, update_state}
use project_whitequbit.Rollback.Firewall.Engine.Execute.{
  set_coordinator, after_removal, remove_claimed, after_claim, rollback_single_rule,
}

-- The error is none of the firewall.
abbrev NotFirewall : Result RollbackEngineError (Unit {0}) → Type 0
NotFirewall (err (firewall_error x)) = ⊥
NotFirewall (err (rule_not_found id)) = Unit
NotFirewall (err (coordination_error x)) = Unit
NotFirewall (err io_error) = Unit
NotFirewall (err serialization_error) = Unit
NotFirewall (ok _) = Unit

-- The result of a removal that the firewall answered in this way.
abbrev Fits : Result FirewallError (Unit {0}) → RuleId → RuleRollbackResult → Type 0
Fits (ok _) id result = result ≡ removed_result id
Fits (err no_such_rule) id result = result ≡ already_removed_result id
Fits (err command_failed) id result = ⊥

module _ {S : Type 0} where
  written_as-NotFirewall :
      (o : WriteOutcome) (longer taken : RollbackJournal S)
      → NotFirewall (written_as o longer taken).1
  written_as-NotFirewall succeeds longer taken = tt
  written_as-NotFirewall unsynced longer taken = tt
  written_as-NotFirewall refused longer taken = tt

  update-NotFirewall :
      (hashing : Hashing S) (id : RuleId) (s : RuleRecordState) (g : RuleRegistry S)
      → NotFirewall (update_record_state hashing id s g).1
  unfolding update_record_state
  update-NotFirewall hashing id s g = elim (Option-cases (Map.get id g.by_rule_id)) [
    | inl q ↦ rw (q, update_record_state) tt
    | inr (r, q) ↦ rw (q, update_record_state) tt
  ]

module _ {S F : Type 0} where
  abbrev claim_on : RuleId → RollbackEngine S F → Option RemovalState
  claim_on id e = Map.get id e.coordinator.removal_states

  -- The rollback still holds the rule, and the time-to-live engine is refused it after the rollback.
  abbrev Leaks : RuleId → RollbackEngine S F → Type 0
  Leaks id e =
      (claim_on id e ≡ some rollback_removing)
      × ((try_acquire_ttl_removal (end_rollback e.coordinator) id).1 ≡ err rollback_in_progress)

  -- The claim after a rollback of one rule, by its answer; `removal` is what the firewall does.
  abbrev pub Settled :
      RuleId
      → F × Result FirewallError (Unit {0})
      → Step (RollbackEngine S F) RuleRollbackResult
      → Type 0
  Settled id removal (e, ok result) =
      (claim_on id e ≡ some removed) × (e.firewall ≡ removal.0) × Fits removal.1 id result
  Settled id removal (e, err (firewall_error x)) =
      (claim_on id e ≡ some active) × (e.firewall ≡ removal.0) × (removal.1 ≡ err x)
  Settled id removal (e, err (rule_not_found missing)) = Leaks id e
  Settled id removal (e, err (coordination_error x)) = Leaks id e
  Settled id removal (e, err io_error) = Leaks id e
  Settled id removal (e, err serialization_error) = Leaks id e

  held-Leaks :
      (id : RuleId) (e : RollbackEngine S F) → claim_on id e ≡ some rollback_removing → Leaks id e
  unfolding try_acquire_ttl_removal end_rollback
  held-Leaks id e held = (held, ground (arith, held))

  and_then-Settled :
      (id : RuleId) (removal : F × Result FirewallError (Unit {0}))
      (x : Step (RollbackEngine S F) (Unit {0}))
      (next : Unit {0} → RollbackEngine S F → Step (RollbackEngine S F) RuleRollbackResult)
      → claim_on id x.0 ≡ some rollback_removing
      → NotFirewall x.1
      → ((u : Unit {0}) → Settled id removal (next u x.0))
      → Settled id removal (and_then x next)
  and_then-Settled id removal (s, ok u) next held calm f = f u
  and_then-Settled id removal (s, err (firewall_error x)) next held calm f = absurd calm
  and_then-Settled id removal (s, err (rule_not_found missing)) next held calm f =
      held-Leaks id s held
  and_then-Settled id removal (s, err (coordination_error x)) next held calm f =
      held-Leaks id s held
  and_then-Settled id removal (s, err io_error) next held calm f = held-Leaks id s held
  and_then-Settled id removal (s, err serialization_error) next held calm f = held-Leaks id s held

  note-NotFirewall :
      (op : RollbackJournalOp S) (at : ℕ) (e : RollbackEngine S F) → NotFirewall (note op at e).1
  unfolding write_op
  note-NotFirewall op at e = written_as-NotFirewall (e.journal.outcomes e.journal.next_seq) _ _

completed :
    (c : Coordinator) (id : RuleId)
    → Map.get id (complete_removal c id).removal_states ≡ some removed
unfolding complete_removal
completed c id = get-insert_self id removed c.removal_states

released :
    (c : Coordinator) (id : RuleId)
    → Map.get id c.removal_states ≡ some rollback_removing
    → Map.get id (release_removal c id).removal_states ≡ some active
unfolding release_removal
released c id held = rw (held, release_removal) (get-insert_self id active c.removal_states)

module _ {S F : Type 0} (hashing : Hashing S)
    (remove_rule : RuleId → F → F × Result FirewallError (Unit {0})) (now : ℕ) where
  after_removal-Settled :
      (r : FirewallRuleRecord S) (answer : Result FirewallError (Unit {0})) (e : RollbackEngine S F)
      → claim_on r.rule_id e ≡ some rollback_removing
      → Settled r.rule_id (e.firewall, answer) (after_removal hashing remove_rule now r answer e)
  unfolding after_removal
  after_removal-Settled r (ok tt) e held =
      let e₁ = (update_state hashing r.rule_id rolled_back e).0 in
      let e₂ = (note (rule_removed r.rule_id by_rollback) now e₁).0 in
      and_then-Settled r.rule_id (e.firewall, ok tt) (update_state hashing r.rule_id rolled_back e)
        _ held (update-NotFirewall hashing r.rule_id rolled_back e.registry)
        (λ _.
          and_then-Settled r.rule_id (e.firewall, ok tt)
            (note (rule_removed r.rule_id by_rollback) now e₁) _ held
            (note-NotFirewall (rule_removed r.rule_id by_rollback) now e₁)
            (λ _. (completed e₂.coordinator r.rule_id, refl, refl)))
  after_removal-Settled r (err no_such_rule) e held =
      let e₁ = (update_state hashing r.rule_id manually_removed e).0 in
      let e₂ = (note (rule_removed r.rule_id external_removal) now e₁).0 in
      and_then-Settled r.rule_id (e.firewall, err no_such_rule)
        (update_state hashing r.rule_id manually_removed e) _ held
        (update-NotFirewall hashing r.rule_id manually_removed e.registry)
        (λ _.
          and_then-Settled r.rule_id (e.firewall, err no_such_rule)
            (note (rule_removed r.rule_id external_removal) now e₁) _ held
            (note-NotFirewall (rule_removed r.rule_id external_removal) now e₁)
            (λ _. (completed e₂.coordinator r.rule_id, refl, refl)))
  after_removal-Settled r (err command_failed) e held =
      let op = state_changed r.rule_id rolling_back rollback_failed (u64 (r.generation + 2)) in
      let e₁ = (update_state hashing r.rule_id rollback_failed e).0 in
      let e₂ = (note op now e₁).0 in
      and_then-Settled r.rule_id (e.firewall, err command_failed)
        (update_state hashing r.rule_id rollback_failed e) _ held
        (update-NotFirewall hashing r.rule_id rollback_failed e.registry)
        (λ _.
          and_then-Settled r.rule_id (e.firewall, err command_failed) (note op now e₁) _ held
            (note-NotFirewall op now e₁)
            (λ _. (released e₂.coordinator r.rule_id held, refl, refl)))

  remove_claimed-Settled :
      (r : FirewallRuleRecord S) (e : RollbackEngine S F)
      → claim_on r.rule_id e ≡ some rollback_removing
      → Settled r.rule_id
          (remove_rule r.rule_id e.firewall)
          (remove_claimed hashing remove_rule now r e)
  unfolding remove_claimed
  remove_claimed-Settled r e held =
      let op = state_changed r.rule_id r.state rolling_back (u64 (r.generation + 1)) in
      let removal = remove_rule r.rule_id e.firewall in
      let e₁ = (update_state hashing r.rule_id rolling_back e).0 in
      let e₂ = (note op now e₁).0 in
      and_then-Settled r.rule_id removal (update_state hashing r.rule_id rolling_back e) _ held
        (update-NotFirewall hashing r.rule_id rolling_back e.registry)
        (λ _.
          and_then-Settled r.rule_id removal (note op now e₁) _ held (note-NotFirewall op now e₁)
            (λ _. after_removal-Settled r removal.1 (record e₂ { firewall = removal.0 }) held))

  -- A rollback of one rule that no removal has a claim on claims it, and then one of three things holds. The firewall
  -- was asked to remove the rule, the answer says what it did, and the rule counts as removed. The firewall's
  -- command failed, the answer is that error, and the claim is given back. Or the answer is an error
  -- of the registry or the journal, whether before or after the removal: the claim is kept, and the
  -- time-to-live engine is refused the rule also when the rollback is over.
  pub rollback_single_rule-Settled :
      (r : FirewallRuleRecord S) (e : RollbackEngine S F)
      → state_of (claim_on r.rule_id e) ≡ active
      → Settled r.rule_id
          (remove_rule r.rule_id e.firewall)
          (rollback_single_rule hashing remove_rule now r e)
  unfolding rollback_single_rule try_acquire_rollback_removal after_claim
  rollback_single_rule-Settled r e free = rw free (
      remove_claimed-Settled r
        (set_coordinator
          (record e.coordinator {
            removal_states = Map.insert r.rule_id rollback_removing e.coordinator.removal_states;
          })
          e)
        (get-insert_self r.rule_id rollback_removing e.coordinator.removal_states))
