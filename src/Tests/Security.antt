-- ===== src/Tests/Security.antt =====
-- security/ on concrete inputs.
use project_whitequbit.Base.{◌≡◌, refl, none, some, [], ◌∷◌, ok, is_ok, inl, true, text_key}
use project_whitequbit.Security.Auth.{
  ClientAuth, ClientInfo, peer_credentials, default_config, authenticate_peer, get_roles_for_uid,
}
use project_whitequbit.Security.Auth.Acceptance.{authenticate_peer-IsAllowed}
use project_whitequbit.Security.Policy.{
  Policy, allow, deny, new_rule, default_policy, evaluate, decided,
}
use project_whitequbit.Security.Policy.Precedence.{strongest, evaluate-strongest}
use project_whitequbit.Security.Peers.{peer_decision}

abbrev root_info : ClientInfo
root_info = record { id = "cli"; uid = some 0; gid = some 0 }

abbrev root : ClientAuth
root = record {
  client_id = "cli";
  method = peer_credentials;
  uid = some 0;
  gid = some 0;
  groups = [];
  roles = "admin" ∷ "operator" ∷ [];
  authenticated_at = 4;
  expires_at = none;
}

root_accepted : authenticate_peer 4 default_config root_info ≡ ok root
unfolding authenticate_peer default_config get_roles_for_uid
root_accepted = refl

authenticate_peer-IsAllowed_example : is_ok (authenticate_peer 4 default_config root_info) ≡ true
unfolding default_config
authenticate_peer-IsAllowed_example =
    (authenticate_peer-IsAllowed 4 default_config root_info).1 0 0 refl refl
      (inl refl, inl (inl refl), inl (inl refl))

peer_decision_example : evaluate default_policy "shutdown" root ≡ allow
peer_decision_example =
    peer_decision 4 default_config root_info root 0 "shutdown" root_accepted refl

abbrev two_rules : Policy
two_rules = record {
  name = "two";
  rules = new_rule "open" allow ∷ record (new_rule "shut" deny) { priority = 2147483649 } ∷ [];
  default_decision = allow;
}

evaluate-strongest_example :
    evaluate two_rules "firewall" root
    ≡ decided (strongest "firewall" root two_rules.rules) two_rules.default_decision
evaluate-strongest_example = evaluate-strongest two_rules "firewall" root
