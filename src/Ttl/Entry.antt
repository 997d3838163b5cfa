-- ===== src/Ttl/Entry.antt =====
-- firewall/ttl.rs: the errors, a TTL entry and its transitions. Reading the clock is an argument.
use project_whitequbit.Base.{
  ℕ, ◌+◌, ◌-◌, ◌*◌, String, Bool, Option, none, some, leb, if◌then◌else◌, u64, Duration, as_secs,
  as_millis, from_millis, true, false,
}

-- `RuleId` of firewall/mod.rs wraps a string.
abbrev pub RuleId : Type 0
RuleId = String

pub data CoordinationError : Type 0 where
  rollback_in_progress ttl_in_progress already_removing already_removed : CoordinationError

-- What `FirewallBackend::remove_rule` can report: a missing rule is told from other failures.
pub data FirewallError : Type 0 where
  rule_missing command_failed : FirewallError

-- The formatted messages are left out.
pub data TtlError : Type 0 where
  invalid_ttl io_error serialization_error shut_down : TtlError
  rule_not_found already_registered : RuleId → TtlError
  coordination_error : CoordinationError → TtlError
  firewall_error : FirewallError → TtlError

pub data TtlState : Type 0 where
  active expiring expired cancelled failed : TtlState

pub record TtlEntry : Type 0 where
  pub rule_id : RuleId
  pub expires_at_ms : ℕ
  pub created_at_ms : ℕ
  pub original_ttl_secs : ℕ
  pub state : TtlState
  pub generation : ℕ

unfoldable pub new_entry : RuleId → Duration → ℕ → TtlEntry
new_entry rule_id ttl now_ms =
    let ttl_secs = as_secs ttl in
    record {
      rule_id = rule_id;
      expires_at_ms = u64 (now_ms + ttl_secs * 1000);
      created_at_ms = now_ms;
      original_ttl_secs = ttl_secs;
      state = active;
      generation = 1;
    }

unfoldable pub is_expired : TtlEntry → ℕ → Bool
is_expired entry now = leb entry.expires_at_ms now

unfoldable pub remaining : TtlEntry → ℕ → Option Duration
remaining entry now =
    if leb entry.expires_at_ms now then none else some (from_millis (entry.expires_at_ms - now))

-- The cast of `as_millis` and the sum both wrap.
unfoldable pub extend : TtlEntry → Duration → TtlEntry
extend entry additional = record entry {
  expires_at_ms = u64 (entry.expires_at_ms + u64 (as_millis additional));
  generation = u64 (entry.generation + 1);
}

unfoldable pub transition : TtlEntry → TtlState → TtlEntry
transition entry new_state = record entry {
  state = new_state;
  generation = u64 (entry.generation + 1);
}

abbrev pub is_active : TtlState → Bool
is_active active = true
is_active _ = false

-- `entry.state == TtlState::Active || entry.state == TtlState::Failed`
abbrev pub is_pending : TtlState → Bool
is_pending active = true
is_pending failed = true
is_pending _ = false
