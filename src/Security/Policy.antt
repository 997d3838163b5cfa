-- ===== src/Security/Policy.antt =====
-- security/policy.rs: what a client may do. A priority is held as its `i32` plus 2 ^ 31, which keeps the
-- order. An action is its type. The cache of the engine, which is never filled, is left out.
pub mod Precedence
use project_whitequbit.Base.{
  ℕ, ◌+◌, ◌^◌, ◌++◌, String, Bool, true, false, Option, none, some, List, [], ◌∷◌, any, is_empty,
  ltb, leb, not, ◌||◌, ◌&&◌, Result, ok, err, text_key, ◌==◌, if◌then◌else◌,
}
use project_whitequbit.Security.Auth.{ClientAuth, has_role, in_group}

pub data Decision : Type 0 where
  allow deny : Decision

pub record PolicyRule : Type 0 where
  pub name : String
  pub action_types : List String
  pub required_roles : List String
  pub required_groups : List String
  pub min_uid : Option ℕ
  pub max_uid : Option ℕ
  pub decision : Decision
  pub priority : ℕ

abbrev pub priority_of_zero : ℕ
priority_of_zero = 2 ^ 31

-- `PolicyRule::allow` and `PolicyRule::deny` differ in the decision.
unfoldable pub new_rule : String → Decision → PolicyRule
new_rule name decision = record {
  name = name;
  action_types = [];
  required_roles = [];
  required_groups = [];
  min_uid = none;
  max_uid = none;
  decision = decision;
  priority = priority_of_zero;
}

-- A bound holds for a client without a user number.
abbrev above : Option ℕ → Option ℕ → Bool
above none bound = true
above (some uid) none = true
above (some uid) (some min) = leb min uid

abbrev below : Option ℕ → Option ℕ → Bool
below none bound = true
below (some uid) none = true
below (some uid) (some max) = leb uid max

unfoldable pub matches : String → ClientAuth → PolicyRule → Bool
matches action_type client rule =
    (is_empty rule.action_types || any (λ t. t == action_type) rule.action_types)
    && ((is_empty rule.required_roles || any (λ r. has_role r client) rule.required_roles)
        && ((is_empty rule.required_groups || any (λ g. in_group g client) rule.required_groups)
            && (above client.uid rule.min_uid && below client.uid rule.max_uid)))

pub record Policy : Type 0 where
  pub name : String
  pub rules : List PolicyRule
  pub default_decision : Decision

unfoldable pub new_policy : String → Policy
new_policy name = record { name = name; rules = []; default_decision = deny }

unfoldable pub add_rule : PolicyRule → Policy → Policy
add_rule rule policy = record policy { rules = policy.rules ++ rule ∷ [] }

unfoldable pub default_policy : Policy
unfolding new_policy add_rule new_rule
default_policy =
    let admin = record (new_rule "admin_all" allow) {
      required_roles = "admin" ∷ [];
      priority = priority_of_zero + 100;
    } in
    let services = record (new_rule "operator_services" allow) {
      required_roles = "operator" ∷ [];
      action_types = "service" ∷ [];
      priority = priority_of_zero + 50;
    } in
    let firewall = record (new_rule "operator_firewall" allow) {
      required_roles = "operator" ∷ [];
      action_types = "firewall" ∷ [];
      priority = priority_of_zero + 50;
    } in
    record (add_rule firewall (add_rule services (add_rule admin (new_policy "default")))) {
      default_decision = deny;
    }

-- The stable sort, the greatest priority first.
unfoldable pub insert_rule : PolicyRule → List PolicyRule → List PolicyRule
insert_rule rule [] = rule ∷ []
insert_rule rule (r ∷ rs) =
    let later = insert_rule rule rs in
    if leb r.priority rule.priority then rule ∷ r ∷ rs else r ∷ later

unfoldable pub sort_rules : List PolicyRule → List PolicyRule
unfolding insert_rule
sort_rules [] = []
sort_rules (rule ∷ rules) = insert_rule rule (sort_rules rules)

-- The loop of `evaluate`.
unfoldable pub first_match : String → ClientAuth → List PolicyRule → Option PolicyRule
first_match action_type client [] = none
first_match action_type client (rule ∷ rules) =
    let later = first_match action_type client rules in
    if matches action_type client rule then some rule else later

abbrev pub decided : Option PolicyRule → Decision → Decision
decided none default_decision = default_decision
decided (some rule) default_decision = rule.decision

unfoldable pub evaluate : Policy → String → ClientAuth → Decision
evaluate policy action_type client =
    decided (first_match action_type client (sort_rules policy.rules)) policy.default_decision

pub data PolicyError : Type 0 where
  not_allowed : String → String → PolicyError

unfoldable pub authorize : Policy → String → ClientAuth → Result PolicyError (Unit {0})
authorize policy action_type client = elim (evaluate policy action_type client) [
  | allow ↦ ok tt
  | deny ↦ err (not_allowed action_type client.client_id)
]
