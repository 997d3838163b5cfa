-- ===== src/Rollback/Firewall/Record.antt =====
-- rollback/firewall_rollback.rs: the record of a rule. `ttl_of` gives the time to live of a specification in
-- milliseconds; times are arguments.
use project_whitequbit.Base.{
  ℕ, ◌+◌, u64, String, Bool, true, false, Option, none, some, [], ◌∷◌, ◌++◌, text_key, ◌==◌,
}
use project_whitequbit.Base.Hash.{Hashing, le_bytes}
use project_whitequbit.Ttl.Entry.{RuleId}

pub data RuleRecordState : Type 0 where
  active rolling_back rolled_back rollback_failed expired manually_removed : RuleRecordState

-- `state as u8`
unfoldable pub state_number : RuleRecordState → ℕ
state_number active = 0
state_number rolling_back = 1
state_number rolled_back = 2
state_number rollback_failed = 3
state_number expired = 4
state_number manually_removed = 5

pub record FirewallRuleRecord (S : Type 0) : Type 0 where
  pub rule_id : RuleId
  pub action_id : String
  pub journal_entry_id : ℕ
  pub created_at_ms : ℕ
  pub version : ℕ
  pub spec : S
  pub state : RuleRecordState
  pub expires_at_ms : Option ℕ
  pub generation : ℕ
  pub checksum : String

-- Whether a state is one of `Active`, `RollingBack`, `RollbackFailed`.
abbrev pub is_pending : RuleRecordState → Bool
is_pending active = true
is_pending rolling_back = true
is_pending rollback_failed = true
is_pending rolled_back = false
is_pending expired = false
is_pending manually_removed = false

abbrev pub is_active : RuleRecordState → Bool
is_active active = true
is_active rolling_back = false
is_active rollback_failed = false
is_active rolled_back = false
is_active expired = false
is_active manually_removed = false

abbrev pub is_failed : RuleRecordState → Bool
is_failed rollback_failed = true
is_failed active = false
is_failed rolling_back = false
is_failed rolled_back = false
is_failed expired = false
is_failed manually_removed = false

unfoldable pub needs_rollback : {S : Type 0} → FirewallRuleRecord S → Bool
needs_rollback r = is_pending r.state

module _ {S : Type 0} (hashing : Hashing S) where
  open hashing use {digest, text_bytes}

  unfoldable pub record_checksum : FirewallRuleRecord S → String
  unfolding state_number
  record_checksum r = digest (
      text_bytes r.rule_id
      ++ (text_bytes r.action_id
          ++ (le_bytes 8 r.journal_entry_id
              ++ (le_bytes 8 r.created_at_ms
                  ++ (le_bytes 8 r.version ++ state_number r.state ∷ [])))))

  unfoldable pub verify_record : FirewallRuleRecord S → Bool
  verify_record r = r.checksum == record_checksum r

  abbrev checked : FirewallRuleRecord S → FirewallRuleRecord S
  checked r = record r { checksum = record_checksum r }

  unfoldable pub transition_record : RuleRecordState → FirewallRuleRecord S → FirewallRuleRecord S
  transition_record new_state r =
      checked (record r { state = new_state; generation = u64 (r.generation + 1) })

  abbrev expiry : ℕ → Option ℕ → Option ℕ
  expiry now none = none
  expiry now (some ttl) = some (u64 (now + u64 ttl))

  unfoldable pub new_rule_record :
      (S → Option ℕ) → RuleId → String → ℕ → S → ℕ → ℕ → FirewallRuleRecord S
  new_rule_record ttl_of rule_id action_id journal_entry_id spec version now = checked (record {
    rule_id = rule_id;
    action_id = action_id;
    journal_entry_id = journal_entry_id;
    created_at_ms = now;
    version = version;
    spec = spec;
    state = active;
    expires_at_ms = expiry now (ttl_of spec);
    generation = 1;
    checksum = "";
  })
