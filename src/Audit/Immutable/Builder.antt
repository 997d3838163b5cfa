-- ===== src/Audit/Immutable/Builder.antt =====
-- audit/immutable.rs: the builder of an entry. The identifier, a random UUID, and the time are arguments.
use project_whitequbit.Base.{ℕ, String, Option, none, some, List, []}
use project_whitequbit.Base.Hash.{Hashing}
use project_whitequbit.Base.Sorted.{SortedMap, put}
use project_whitequbit.Audit.Entry.{Json}
use project_whitequbit.Audit.Immutable.Entry.{
  AuditCategory, security_action, AuditSeverity, info, StateSnapshot, StateTransition, AuditActor,
  AuditTarget, AuditOutcome, success, ImmutableAuditEntry, system_actor, compute_hash,
}

pub record AuditEntryBuilder : Type 0 where
  pub category : AuditCategory
  pub severity : AuditSeverity
  pub event_type : String
  pub actor : AuditActor
  pub target : Option AuditTarget
  pub outcome : AuditOutcome
  pub state_transition : StateTransition
  pub metadata : SortedMap Json

unfoldable pub new_builder : String → AuditEntryBuilder
unfolding system_actor
new_builder event_type = record {
  category = security_action;
  severity = info;
  event_type = event_type;
  actor = system_actor;
  target = none;
  outcome = success;
  state_transition = record { before = none; after = none };
  metadata = [];
}

unfoldable pub set_category : AuditCategory → AuditEntryBuilder → AuditEntryBuilder
set_category category b = record b { category = category }

unfoldable pub set_severity : AuditSeverity → AuditEntryBuilder → AuditEntryBuilder
set_severity severity b = record b { severity = severity }

unfoldable pub set_actor : AuditActor → AuditEntryBuilder → AuditEntryBuilder
set_actor actor b = record b { actor = actor }

unfoldable pub set_target : AuditTarget → AuditEntryBuilder → AuditEntryBuilder
set_target target b = record b { target = some target }

unfoldable pub set_outcome : AuditOutcome → AuditEntryBuilder → AuditEntryBuilder
set_outcome outcome b = record b { outcome = outcome }

unfoldable pub before_state : StateSnapshot → AuditEntryBuilder → AuditEntryBuilder
before_state state b = record b {
  state_transition = record b.state_transition { before = some state };
}

unfoldable pub after_state : StateSnapshot → AuditEntryBuilder → AuditEntryBuilder
after_state state b = record b {
  state_transition = record b.state_transition { after = some state };
}

unfoldable pub set_state_transition : StateTransition → AuditEntryBuilder → AuditEntryBuilder
set_state_transition transition b = record b { state_transition = transition }

unfoldable pub add_metadata : String → Json → AuditEntryBuilder → AuditEntryBuilder
add_metadata key value b = record b { metadata = put key value b.metadata }

module _ (hashing : Hashing Json) (quoted_bytes : String → List ℕ) where
  -- `entry.entry_hash = entry.compute_hash()`
  abbrev pub rehash : ImmutableAuditEntry → ImmutableAuditEntry
  rehash e = record e { entry_hash = compute_hash hashing quoted_bytes e }

  unfoldable pub build_entry : AuditEntryBuilder → String → ℕ → ℕ → String → ImmutableAuditEntry
  build_entry b entry_id now sequence previous_hash = rehash (record {
    sequence = sequence;
    entry_id = entry_id;
    timestamp = now;
    category = b.category;
    severity = b.severity;
    event_type = b.event_type;
    actor = b.actor;
    target = b.target;
    outcome = b.outcome;
    state_transition = b.state_transition;
    metadata = b.metadata;
    previous_hash = previous_hash;
    entry_hash = "";
    checkpoint = none;
  })
