-- ===== src/Audit/Immutable/Entry.antt =====
-- audit/immutable.rs: the entries of the log and their hashes. `hashing` gives the hash, and the texts of
-- values, a time with its nanoseconds; `quoted_bytes` is the text that `{:?}` shows for a text.
use project_whitequbit.Base.{
  ℕ, zero, suc, String, Bool, true, false, Option, none, some, List, [], ◌∷◌, ◌++◌, not, text_key,
  ◌==◌, is_some,
}
use project_whitequbit.Base.Hash.{Hashing, le_bytes}
use project_whitequbit.Base.Sorted.{SortedMap, put}
use project_whitequbit.Audit.Entry.{Json}

pub data AuditCategory : Type 0 where
  lifecycle security_action authentication integrity recovery checkpoints : AuditCategory

pub data AuditSeverity : Type 0 where
  info notice warning error critical alert : AuditSeverity

-- `format!("{:?}", category)` and `format!("{:?}", severity)`.
unfoldable pub category_name : AuditCategory → String
category_name lifecycle = "Lifecycle"
category_name security_action = "SecurityAction"
category_name authentication = "Authentication"
category_name integrity = "Integrity"
category_name recovery = "Recovery"
category_name checkpoints = "Checkpoint"

unfoldable pub severity_name : AuditSeverity → String
severity_name info = "Info"
severity_name notice = "Notice"
severity_name warning = "Warning"
severity_name error = "Error"
severity_name critical = "Critical"
severity_name alert = "Alert"

pub record StateSnapshot : Type 0 where
  pub state_type : String
  pub state_hash : String
  pub state : Json
  pub captured_at : ℕ

pub record StateTransition : Type 0 where
  pub before : Option StateSnapshot
  pub after : Option StateSnapshot

pub record AuditActor : Type 0 where
  pub principal : String
  pub auth_method : Option String
  pub source_addr : Option String
  pub session_id : Option String

pub record AuditTarget : Type 0 where
  pub resource_type : String
  pub resource_id : String
  pub attributes : SortedMap String

pub data AuditOutcome : Type 0 where
  success pending : AuditOutcome
  failure denied rolled_back : String → AuditOutcome

pub record CheckpointData : Type 0 where
  pub entries_since_last : ℕ
  pub cumulative_hash : String
  pub merkle_root : String
  pub previous_checkpoint_seq : ℕ

pub record ImmutableAuditEntry : Type 0 where
  pub sequence : ℕ
  pub entry_id : String
  pub timestamp : ℕ
  pub category : AuditCategory
  pub severity : AuditSeverity
  pub event_type : String
  pub actor : AuditActor
  pub target : Option AuditTarget
  pub outcome : AuditOutcome
  pub state_transition : StateTransition
  pub metadata : SortedMap Json
  pub previous_hash : String
  pub entry_hash : String
  pub checkpoint : Option CheckpointData

-- The first characters of a text, as in `[..16]` on hexadecimal digits.
abbrev pub first_chars : ℕ → String → String
first_chars zero s = String.[]
first_chars (suc n) String.[] = String.[]
first_chars (suc n) (String.◌∷◌ c s) = String.◌∷◌ c (first_chars n s)

unfoldable pub differs_from : StateSnapshot → StateSnapshot → Bool
differs_from a b = not (a.state_hash == b.state_hash)

unfoldable pub transition_before : StateSnapshot → StateTransition
transition_before state = record { before = some state; after = none }

unfoldable pub with_after : StateSnapshot → StateTransition → StateTransition
with_after state t = record t { after = some state }

abbrev changed : Option StateSnapshot → Option StateSnapshot → Bool
changed (some b) (some a) = differs_from b a
changed none (some a) = true
changed (some b) none = true
changed none none = false

unfoldable pub has_change : StateTransition → Bool
unfolding differs_from
has_change t = changed t.before t.after

unfoldable pub system_actor : AuditActor
system_actor = record {
  principal = "system";
  auth_method = none;
  source_addr = none;
  session_id = none;
}

unfoldable pub authenticated_actor : String → String → AuditActor
authenticated_actor principal auth_method = record {
  principal = principal;
  auth_method = some auth_method;
  source_addr = none;
  session_id = none;
}

unfoldable pub with_source : String → AuditActor → AuditActor
with_source addr a = record a { source_addr = some addr }

unfoldable pub with_session : String → AuditActor → AuditActor
with_session session a = record a { session_id = some session }

unfoldable pub new_target : String → String → AuditTarget
new_target resource_type resource_id = record {
  resource_type = resource_type;
  resource_id = resource_id;
  attributes = [];
}

unfoldable pub with_attr : String → String → AuditTarget → AuditTarget
with_attr key value t = record t { attributes = put key value t.attributes }

unfoldable pub is_checkpoint : ImmutableAuditEntry → Bool
is_checkpoint e = is_some e.checkpoint

module _ (hashing : Hashing Json) where
  open hashing use {digest, text_bytes, data_bytes, time_bytes}

  unfoldable pub state_hash_of : Json → String
  state_hash_of state = first_chars 16 (digest (data_bytes state))

  unfoldable pub new_snapshot : String → Json → ℕ → StateSnapshot
  new_snapshot state_type state now = record {
    state_type = state_type;
    state_hash = state_hash_of state;
    state = state;
    captured_at = now;
  }

module _ (hashing : Hashing Json) (quoted_bytes : String → List ℕ) where
  open hashing use {digest, text_bytes, data_bytes, time_bytes}

  abbrev optional_bytes : Option String → List ℕ
  optional_bytes none = []
  optional_bytes (some s) = text_bytes s

  abbrev attribute_bytes : SortedMap String → List ℕ
  attribute_bytes [] = []
  attribute_bytes ((k, v) ∷ m) = text_bytes k ++ (text_bytes v ++ attribute_bytes m)

  abbrev target_bytes : Option AuditTarget → List ℕ
  target_bytes none = []
  target_bytes (some t) =
      text_bytes t.resource_type ++ (text_bytes t.resource_id ++ attribute_bytes t.attributes)

  abbrev outcome_bytes : AuditOutcome → List ℕ
  outcome_bytes success = text_bytes "Success"
  outcome_bytes pending = text_bytes "Pending"
  outcome_bytes (failure reason) =
      text_bytes "Failure { reason: " ++ (quoted_bytes reason ++ text_bytes " }")
  outcome_bytes (denied policy) =
      text_bytes "Denied { policy: " ++ (quoted_bytes policy ++ text_bytes " }")
  outcome_bytes (rolled_back reason) =
      text_bytes "RolledBack { reason: " ++ (quoted_bytes reason ++ text_bytes " }")

  abbrev snapshot_bytes : Option StateSnapshot → List ℕ
  snapshot_bytes none = []
  snapshot_bytes (some s) = text_bytes s.state_hash

  abbrev metadata_bytes : SortedMap Json → List ℕ
  metadata_bytes [] = []
  metadata_bytes ((k, v) ∷ m) = text_bytes k ++ (data_bytes v ++ metadata_bytes m)

  abbrev checkpoint_bytes : Option CheckpointData → List ℕ
  checkpoint_bytes none = []
  checkpoint_bytes (some c) =
      text_bytes c.cumulative_hash
      ++ (text_bytes c.merkle_root
          ++ (le_bytes 8 c.entries_since_last ++ le_bytes 8 c.previous_checkpoint_seq))

  unfoldable pub hashed_bytes : ImmutableAuditEntry → List ℕ
  hashed_bytes e =
      le_bytes 8 e.sequence
      ++ (text_bytes e.entry_id
          ++ (time_bytes e.timestamp
              ++ (text_bytes (category_name e.category)
                  ++ (text_bytes (severity_name e.severity)
                      ++ (text_bytes e.event_type
                          ++ (text_bytes e.actor.principal
                              ++ (optional_bytes e.actor.auth_method
                                  ++ (optional_bytes e.actor.source_addr
                                      ++ (optional_bytes e.actor.session_id
                                          ++ (target_bytes e.target
                                              ++ (outcome_bytes e.outcome
                                                  ++ (snapshot_bytes e.state_transition.before
                                                      ++ (snapshot_bytes e.state_transition.after
                                                          ++ (metadata_bytes e.metadata
                                                            ++ (text_bytes e.previous_hash
                                                            ++ checkpoint_bytes
                                                            e.checkpoint)))))))))))))))

  unfoldable pub compute_hash : ImmutableAuditEntry → String
  compute_hash e = digest (hashed_bytes e)

  unfoldable pub verify_hash : ImmutableAuditEntry → Bool
  verify_hash e = e.entry_hash == compute_hash e
