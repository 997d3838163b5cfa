-- ===== src/Ttl/Coordinator/Exclusion.antt =====
-- At most one of the TTL engine and the rollback engine removes a rule at a time.
use project_whitequbit.Base.{
  ℕ, ◌+◌, ◌≤◌, ◌&&◌, ◌≡◌, Bool, true, false, Option, some, List, [], ◌∷◌, is_ok, if◌then◌else◌,
  text_key, ◌==◌, ==_iff, arith,
}
use project_whitequbit.Base.Map
use project_whitequbit.Base.Map.{Map, get-insert}
use project_whitequbit.Ttl.Entry.{RuleId}
use project_whitequbit.Ttl.Coordinator.{
  RemovalState, active, ttl_removing, rollback_removing, removed, Coordinator,
  try_acquire_ttl_removal, try_acquire_rollback_removal, complete_removal, release_removal,
  begin_rollback, end_rollback, drop_removed, cleanup_old_states,
}

-- The calls that the two engines make, in any order.
pub data Call : Type 0 where
  acquire_ttl acquire_rollback complete release : RuleId → Call
  begin end : Call
  cleanup : ℕ → Call

-- A call returns whether a removal was acquired.
unfoldable pub perform : Coordinator → Call → Coordinator × Bool
perform c (acquire_ttl id) = let (d, r) = try_acquire_ttl_removal c id in (d, is_ok r)
perform c (acquire_rollback id) = let (d, r) = try_acquire_rollback_removal c id in (d, is_ok r)
perform c (complete id) = (complete_removal c id, false)
perform c (release id) = (release_removal c id, false)
perform c begin = (begin_rollback c, false)
perform c end = (end_rollback c, false)
perform c (cleanup n) = (cleanup_old_states c n, false)

abbrev pub acquires : RuleId → Call → Bool
acquires id (acquire_ttl j) = j == id
acquires id (acquire_rollback j) = j == id
acquires id _ = false

-- The owner of a rule's removal ends it by one of these.
abbrev pub ends : RuleId → Call → Bool
ends id (complete j) = j == id
ends id (release j) = j == id
ends id _ = false

abbrev pub owned : Option RemovalState → Bool
owned (some ttl_removing) = true
owned (some rollback_removing) = true
owned _ = false

abbrev pub is_owned : RuleId → Coordinator → Bool
is_owned id c = owned (Map.get id c.removal_states)

get-drop_removed :
    (id : RuleId) (m : Map RuleId RemovalState)
    → owned (Map.get id m) ≡ true
    → owned (Map.get id (drop_removed m)) ≡ true
unfolding drop_removed Map.get
get-drop_removed id [] h = h
get-drop_removed id ((j, s) ∷ m) h = ground (arith, get-drop_removed id m)

abbrev pub one_if : Bool → ℕ
one_if true = 1
one_if false = 0

abbrev set_at : Coordinator → RuleId → RemovalState → Coordinator
set_at c id s = record c { removal_states = Map.insert id s c.removal_states }

-- What a write of one rule's state does to the ownership of another.
owned_set :
    (c : Coordinator) (j id : RuleId) (s : RemovalState)
    → is_owned id (set_at c j s) ≡ (if j == id then owned (some s) else is_owned id c)
owned_set c j id s = ground (arith, get-insert j id s c.removal_states)

-- One call: a grant needs a free rule, and only its end frees an owned one.
step_balance :
    (id : RuleId) (c : Coordinator) (call : Call)
    → one_if (acquires id call && (perform c call).1) + one_if (is_owned id c)
      ≤ one_if (is_owned id (perform c call).0) + one_if (ends id call)
unfolding perform try_acquire_ttl_removal try_acquire_rollback_removal complete_removal
    release_removal begin_rollback end_rollback cleanup_old_states
step_balance id c (acquire_ttl j) = ground (
  arith,
  ==_iff j id,
  owned_set c j id ttl_removing,
  owned_set c j id rollback_removing,
  owned_set c j id removed,
)
step_balance id c (acquire_rollback j) = ground (
  arith,
  ==_iff j id,
  owned_set c j id ttl_removing,
  owned_set c j id rollback_removing,
  owned_set c j id removed,
)
step_balance id c (complete j) = ground (arith, owned_set c j id removed)
step_balance id c (release j) = ground (arith, owned_set c j id active, ==_iff j id)
step_balance id c begin = omega arith
step_balance id c end = omega arith
step_balance id c (cleanup n) = ground (arith, get-drop_removed id c.removal_states)

-- How often a sequence of calls grants the removal of a rule, and how often it ends one.
unfoldable pub grants : RuleId → Coordinator → List Call → ℕ
grants id c [] = 0
grants id c (call ∷ calls) =
    one_if (acquires id call && (perform c call).1) + grants id (perform c call).0 calls

abbrev pub endings : RuleId → List Call → ℕ
endings id [] = 0
endings id (call ∷ calls) = one_if (ends id call) + endings id calls

-- Whatever the two engines call in whatever order, the removal of a rule is granted at most once
-- more than it is ended, and no more often than it is ended while it is already owned.
pub removal_exclusive :
    (id : RuleId) (c : Coordinator) (calls : List Call)
    → grants id c calls + one_if (is_owned id c) ≤ endings id calls + 1
unfolding grants
removal_exclusive id c [] = ground arith
removal_exclusive id c (call ∷ calls) =
    omega (arith, step_balance id c call, removal_exclusive id (perform c call).0 calls)
