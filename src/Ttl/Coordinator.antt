-- ===== src/Ttl/Coordinator.antt =====
-- firewall/ttl.rs: `TtlRollbackCoordinator`, which keeps the TTL engine and the rollback engine
-- from removing one rule together.
pub mod Exclusion
use project_whitequbit.Base.{
  Bool, true, false, Option, none, some, ℕ, List, [], ◌∷◌, ltb, length, if◌then◌else◌, Result, ok,
  err, text_key,
}
use project_whitequbit.Base.Map
use project_whitequbit.Base.Map.{Map}
use project_whitequbit.Ttl.Entry.{
  RuleId, CoordinationError, rollback_in_progress, ttl_in_progress, already_removing,
  already_removed,
}

pub data RemovalState : Type 0 where
  active ttl_removing rollback_removing removed : RemovalState

-- The notifier of waiting tasks has no state that the code reads.
pub record Coordinator : Type 0 where
  pub removal_states : Map RuleId RemovalState
  pub rollback_running : Bool

abbrev pub new_coordinator : Coordinator
new_coordinator = record { removal_states = []; rollback_running = false }

abbrev pub Acquired : Type 0
Acquired = Coordinator × Result CoordinationError (Unit {0})

-- `entry(id).or_insert(Active)`
abbrev pub state_of : Option RemovalState → RemovalState
state_of none = active
state_of (some s) = s

abbrev set_state : Coordinator → RuleId → RemovalState → Coordinator
set_state c id s = record c { removal_states = Map.insert id s c.removal_states }

-- The `match` on the state; the entry is there afterwards on every branch.
ttl_claim : Coordinator → RuleId → RemovalState → Acquired
ttl_claim c id active = (set_state c id ttl_removing, ok tt)
ttl_claim c id rollback_removing = (set_state c id rollback_removing, err rollback_in_progress)
ttl_claim c id ttl_removing = (set_state c id ttl_removing, err already_removing)
ttl_claim c id removed = (set_state c id removed, err already_removed)

unfoldable pub try_acquire_ttl_removal : Coordinator → RuleId → Acquired
unfolding ttl_claim
try_acquire_ttl_removal c id =
    if c.rollback_running
    then (c, err rollback_in_progress)
    else ttl_claim c id (state_of (Map.get id c.removal_states))

rollback_claim : Coordinator → RuleId → RemovalState → Acquired
rollback_claim c id active = (set_state c id rollback_removing, ok tt)
rollback_claim c id ttl_removing = (set_state c id ttl_removing, err ttl_in_progress)
rollback_claim c id rollback_removing = (set_state c id rollback_removing, err already_removing)
rollback_claim c id removed = (set_state c id removed, err already_removed)

unfoldable pub try_acquire_rollback_removal : Coordinator → RuleId → Acquired
unfolding rollback_claim
try_acquire_rollback_removal c id = rollback_claim c id (state_of (Map.get id c.removal_states))

unfoldable pub complete_removal : Coordinator → RuleId → Coordinator
complete_removal c id = set_state c id removed

release_state : Coordinator → RuleId → Option RemovalState → Coordinator
release_state c id (some ttl_removing) = set_state c id active
release_state c id (some rollback_removing) = set_state c id active
release_state c id _ = c

unfoldable pub release_removal : Coordinator → RuleId → Coordinator
unfolding release_state
release_removal c id = release_state c id (Map.get id c.removal_states)

unfoldable pub begin_rollback : Coordinator → Coordinator
begin_rollback c = record c { rollback_running = true }

unfoldable pub end_rollback : Coordinator → Coordinator
end_rollback c = record c { rollback_running = false }

abbrev pub is_removed : RemovalState → Bool
is_removed removed = true
is_removed _ = false

-- `retain` of the entries that are not `Removed`.
unfoldable pub drop_removed : Map RuleId RemovalState → Map RuleId RemovalState
drop_removed [] = []
drop_removed ((id, s) ∷ m) =
    let rest = drop_removed m in if is_removed s then rest else (id, s) ∷ rest

unfoldable pub cleanup_old_states : Coordinator → ℕ → Coordinator
unfolding drop_removed
cleanup_old_states c max_entries =
    if ltb max_entries (length c.removal_states)
    then record c { removal_states = drop_removed c.removal_states }
    else c
