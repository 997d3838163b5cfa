-- ===== src/Security/Peers.antt =====
-- What the default policy lets the users of the machine do.
use project_whitequbit.Base.{
  ℕ, ◌≡◌, refl, sym, subst, ◌∙◌, String, true, false, some, nat_eqb, ok, if◌then◌else◌, ◌||◌, arith,
  Bool-cases, ◌⊎◌, inl, inr, text_key, ◌==◌,
}
use project_whitequbit.Security.Auth.{
  ClientAuth, AuthConfig, ClientInfo, authenticate_peer, get_roles_for_uid, has_role,
}
use project_whitequbit.Security.Auth.Acceptance.{authenticate_peer-IsPeer}
use project_whitequbit.Security.Policy.{
  Decision, allow, deny, new_rule, add_rule, new_policy, default_policy, evaluate, matches, decided,
}
use project_whitequbit.Security.Policy.Precedence.{evaluate-strongest, strongest}

abbrev as_user : ℕ → ClientAuth → ClientAuth
as_user user client = record client { roles = get_roles_for_uid user; uid = some user }

abbrev may : ℕ → String → Decision
may user action_type =
    if nat_eqb user 0 || (("service" == action_type) || ("firewall" == action_type))
    then allow
    else deny

decided_for_user :
    (client : ClientAuth) (user : ℕ) (action_type : String)
    → decided
        (strongest action_type (as_user user client) default_policy.rules)
        default_policy.default_decision
      ≡ may user action_type
unfolding default_policy new_policy add_rule new_rule matches has_role get_roles_for_uid
decided_for_user client user action_type =
    by_tests (Bool-cases (nat_eqb user 0)) (Bool-cases ("service" == action_type))
      (Bool-cases ("firewall" == action_type))
  where
    by_tests :
        ((nat_eqb user 0 ≡ true) ⊎ (nat_eqb user 0 ≡ false))
        → ((("service" == action_type) ≡ true) ⊎ (("service" == action_type) ≡ false))
        → ((("firewall" == action_type) ≡ true) ⊎ (("firewall" == action_type) ≡ false))
        → decided
            (strongest action_type (as_user user client) default_policy.rules)
            default_policy.default_decision
          ≡ may user action_type
    by_tests (inl z) (inl s) (inl f) = rw (z, s, f) refl
    by_tests (inl z) (inl s) (inr f) = rw (z, s, f) refl
    by_tests (inl z) (inr s) (inl f) = rw (z, s, f) refl
    by_tests (inl z) (inr s) (inr f) = rw (z, s, f) refl
    by_tests (inr z) (inl s) (inl f) = rw (z, s, f) refl
    by_tests (inr z) (inl s) (inr f) = rw (z, s, f) refl
    by_tests (inr z) (inr s) (inl f) = rw (z, s, f) refl
    by_tests (inr z) (inr s) (inr f) = rw (z, s, f) refl

decided_by_roles :
    (client : ClientAuth) (user : ℕ) (action_type : String)
    → client.roles ≡ get_roles_for_uid user
    → client.uid ≡ some user
    → decided (strongest action_type client default_policy.rules) default_policy.default_decision
      ≡ may user action_type
decided_by_roles client user action_type h k =
    subst
      (λ o.
        decided (strongest action_type (record client { uid = o }) default_policy.rules)
          default_policy.default_decision
        ≡ may user action_type)
      (sym k)
      (subst
        (λ rs.
          decided
            (strongest action_type (record client { roles = rs; uid = some user })
              default_policy.rules)
            default_policy.default_decision
          ≡ may user action_type)
        (sym h) (decided_for_user client user action_type))

-- Under the default policy a client that is accepted as a user of the machine may do everything if the
-- user is root, and else what concerns services and the firewall, and nothing more.
pub peer_decision :
    (now : ℕ) (config : AuthConfig) (info : ClientInfo) (client : ClientAuth) (user : ℕ)
    (action_type : String)
    → authenticate_peer now config info ≡ ok client
    → info.uid ≡ some user
    → evaluate default_policy action_type client ≡ (
        if nat_eqb user 0 || (("service" == action_type) || ("firewall" == action_type))
        then allow
        else deny)
peer_decision now config info client user action_type h q =
    let peer = authenticate_peer-IsPeer now config info client h in
    let same : peer.user ≡ user = ground (arith, q, peer.is_user) in
    evaluate-strongest default_policy action_type client
    ∙ decided_by_roles client user action_type (rw⁻¹ same peer.has_roles) (rw⁻¹ same peer.known_as)
