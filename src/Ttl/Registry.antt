-- ===== src/Ttl/Registry.antt =====
-- firewall/ttl.rs: `TtlRegistry`, the entries by rule and the time-ordered index. A method that
-- takes `&mut self` returns the new registry beside its result.
pub mod Consistency
pub mod Deadlines
pub mod Histories
use mathlib.Core.List
use project_whitequbit.Base.{
  ℕ, ◌+◌, Bool, true, false, Option, none, some, List, [], ◌∷◌, ◌++◌, leb, if◌then◌else◌, u64,
  Result, ok, err, text_key, is_some, length, keep,
}
use project_whitequbit.Base.Map
use project_whitequbit.Base.Map.{Map, values}
use project_whitequbit.Ttl.Entry.{
  RuleId, TtlError, rule_not_found, already_registered, TtlState, active, expiring, expired,
  cancelled, failed, TtlEntry, transition, is_active, is_pending,
}
use project_whitequbit.Ttl.Index.{Index, index_insert, index_remove, first_key}

pub record TtlRegistry : Type 0 where
  pub by_rule_id : Map RuleId TtlEntry
  pub by_expiration : Index
  pub version : ℕ

abbrev pub empty_registry : TtlRegistry
empty_registry = record { by_rule_id = []; by_expiration = []; version = 0 }

abbrev next_version : ℕ → ℕ
next_version v = u64 (v + 1)

unfoldable pub next_expiration : TtlRegistry → Option ℕ
unfolding first_key
next_expiration r = first_key r.by_expiration

-- The inner loop: the pending entries of one bucket.
unfoldable pub pending_of : Map RuleId TtlEntry → List RuleId → List TtlEntry
pending_of m [] = []
pending_of m (id ∷ ids) = elim (Map.get id m) [
  | none ↦ pending_of m ids
  | some entry ↦ if is_pending entry.state then entry ∷ pending_of m ids else pending_of m ids
]

-- `range(..=deadline_ms)` is the buckets up to the deadline.
unfoldable pub expiring_before : Map RuleId TtlEntry → Index → ℕ → List TtlEntry
unfolding pending_of
expiring_before m [] deadline = []
expiring_before m ((t, ids) ∷ rest) deadline =
    let later = expiring_before m rest deadline in
    if leb t deadline then pending_of m ids ++ later else later

unfoldable pub entries_expiring_before : TtlRegistry → ℕ → List TtlEntry
unfolding expiring_before
entries_expiring_before r deadline_ms = expiring_before r.by_rule_id r.by_expiration deadline_ms

unfoldable pub register : TtlRegistry → TtlEntry → TtlRegistry × Result TtlError (Unit {0})
register r entry =
    if is_some (Map.get entry.rule_id r.by_rule_id)
    then (r, err (already_registered entry.rule_id))
    else (
      record {
        by_rule_id = Map.insert entry.rule_id entry r.by_rule_id;
        by_expiration = index_insert entry.expires_at_ms entry.rule_id r.by_expiration;
        version = next_version r.version;
      },
      ok tt,
    )

-- An entry leaves the map and its bucket.
abbrev take_out : TtlRegistry → RuleId → TtlEntry → TtlRegistry
take_out r id entry = record {
  by_rule_id = Map.remove id r.by_rule_id;
  by_expiration = index_remove entry.expires_at_ms id r.by_expiration;
  version = next_version r.version;
}

unfoldable pub cancel : TtlRegistry → RuleId → TtlRegistry × Option TtlEntry
unfolding transition
cancel r id = elim (Map.get id r.by_rule_id) [
  | none ↦ (r, none)
  | some entry ↦ (take_out r id entry, some (transition entry cancelled))
]

-- `get_mut`, with what its caller does to the entry that it hands out.
unfoldable pub get_mut : (TtlEntry → TtlEntry) → TtlRegistry → RuleId → TtlRegistry
get_mut f r id = elim (Map.get id r.by_rule_id) [
  | none ↦ r
  | some entry ↦ record r { by_rule_id = Map.insert id (f entry) r.by_rule_id }
]

-- `get_mut` and a transition in place; `mark_expiring` and `mark_failed` differ in the state.
unfoldable pub mark : TtlState → TtlRegistry → RuleId → TtlRegistry × Result TtlError (Unit {0})
unfolding transition
mark new_state r id = elim (Map.get id r.by_rule_id) [
  | none ↦ (r, err (rule_not_found id))
  | some entry ↦ (
    record r {
      by_rule_id = Map.insert id (transition entry new_state) r.by_rule_id;
      version = next_version r.version;
    },
    ok tt,
  )
]

unfoldable pub mark_expiring : TtlRegistry → RuleId → TtlRegistry × Result TtlError (Unit {0})
unfolding mark
mark_expiring = mark expiring

unfoldable pub mark_failed : TtlRegistry → RuleId → TtlRegistry × Result TtlError (Unit {0})
unfolding mark
mark_failed = mark failed

unfoldable pub mark_expired : TtlRegistry → RuleId → TtlRegistry × Result TtlError TtlEntry
unfolding transition
mark_expired r id = elim (Map.get id r.by_rule_id) [
  | none ↦ (r, err (rule_not_found id))
  | some entry ↦ (take_out r id entry, ok (transition entry expired))
]

unfoldable pub list_active : TtlRegistry → List TtlEntry
list_active r = keep (λ e. is_active e.state) (values r.by_rule_id)

unfoldable pub active_count : TtlRegistry → ℕ
unfolding list_active
active_count r = length (list_active r)

unfoldable pub update_expiration :
    TtlRegistry → RuleId → ℕ → TtlRegistry × Result TtlError (Unit {0})
update_expiration r id new_expires_at = elim (Map.get id r.by_rule_id) [
  | none ↦ (r, err (rule_not_found id))
  | some entry ↦ (
    record {
      by_rule_id =
          Map.insert id
            (record entry {
              expires_at_ms = new_expires_at;
              generation = u64 (entry.generation + 1);
            })
            r.by_rule_id;
      by_expiration =
          index_insert new_expires_at id (index_remove entry.expires_at_ms id r.by_expiration);
      version = next_version r.version;
    },
    ok tt,
  )
]
