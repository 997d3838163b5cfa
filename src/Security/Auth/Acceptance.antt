-- ===== src/Security/Auth/Acceptance.antt =====
-- Which clients are accepted, and as whom.
use project_whitequbit.Base.{
  ℕ, ◌≡◌, ◌⊎◌, ◌↔◌, refl, ap, true, some, List, [], ◌∷◌, ok, is_ok, nat_eqb, any, is_empty, arith,
  Bool-cases, Option-cases, inl, inr, text_key,
}
use project_whitequbit.Security.Auth.{
  AuthMethod, peer_credentials, token, certificate, no_method, ClientAuth, has_role, AuthConfig,
  ClientInfo, contains, is_peer, authenticate_peer, get_roles_for_uid, uid_allowed, gid_allowed,
  allows_peers,
}

-- A value stands in a list.
abbrev pub Listed : {A : Type 0} → A → List A → Type 0
Listed x [] = ⊥
Listed x (y ∷ ys) = (y ≡ x) ⊎ Listed x ys

-- Whom the configuration lets in by the credentials of the connection.
abbrev pub IsAllowed : AuthConfig → ℕ → ℕ → Type 0
IsAllowed config user group =
    Listed peer_credentials config.allowed_methods
    × (Listed user config.allowed_uids ⊎ ((user ≡ 0) × (config.allow_root ≡ true)))
    × (Listed group config.allowed_gids ⊎ (config.allowed_gids ≡ []))

contains-Listed : (n : ℕ) (ns : List ℕ) → (contains n ns ≡ true) ↔ Listed n ns
contains-Listed n [] = ((λ h. absurd (cc)), (λ h. absurd h))
contains-Listed n (m ∷ ns) =
    let (to, from) = contains-Listed n ns in
    elim (Bool-cases (nat_eqb m n)) [
      | inl q ↦ ((λ h. inl (ground (arith, q))), (λ h. rw q refl))
      | inr q ↦ (
        (λ h. inr (to (ground (arith, h, q)))),
        (λ h. elim h [
          | inl same ↦ absurd (ground (arith, q, same))
          | inr later ↦ rw q (from later)
        ]),
      )
    ]

is_peer-same : (m : AuthMethod) → is_peer m ≡ true → m ≡ peer_credentials
is_peer-same peer_credentials h = refl
is_peer-same token h = absurd (cc)
is_peer-same certificate h = absurd (cc)
is_peer-same no_method h = absurd (cc)

is_empty-nil : {A : Type 0} (xs : List A) → is_empty xs ≡ true → xs ≡ []
is_empty-nil [] h = refl
is_empty-nil (x ∷ xs) h = absurd (cc)

peers-Listed : (ms : List AuthMethod) → (any is_peer ms ≡ true) ↔ Listed peer_credentials ms
peers-Listed [] = ((λ h. absurd (cc)), (λ h. absurd h))
peers-Listed (m ∷ ms) =
    let (to, from) = peers-Listed ms in
    elim (Bool-cases (is_peer m)) [
      | inl q ↦ ((λ h. inl (is_peer-same m q)), (λ h. rw q refl))
      | inr q ↦ (
        (λ h. inr (to (ground (arith, h, q)))),
        (λ h. elim h [
          | inl same ↦ absurd (ground (arith, q, ap is_peer same))
          | inr later ↦ rw q (from later)
        ]),
      )
    ]

-- What acceptance of a peer rests on, and who the client is then.
pub record IsPeer (config : AuthConfig) (info : ClientInfo) (client : ClientAuth) : Type 0 where
  pub user : ℕ
  pub group : ℕ
  pub is_user : info.uid ≡ some user
  pub is_group : info.gid ≡ some group
  pub methods : allows_peers config ≡ true
  pub user_allowed : uid_allowed config user ≡ true
  pub group_allowed : gid_allowed config group ≡ true
  pub known_as : client.uid ≡ some user
  pub has_roles : client.roles ≡ get_roles_for_uid user

pub authenticate_peer-IsPeer :
    (now : ℕ) (config : AuthConfig) (info : ClientInfo) (client : ClientAuth)
    → authenticate_peer now config info ≡ ok client
    → IsPeer config info client
unfolding authenticate_peer
authenticate_peer-IsPeer now config info client h = elim (Option-cases info.uid) [
  | inl q ↦ absurd (ground (arith, h, q))
  | inr (user, q) ↦ elim (Option-cases info.gid) [
    | inl p ↦ absurd (ground (arith, h, q, p))
    | inr (group, p) ↦ record {
      user = user;
      group = group;
      is_user = q;
      is_group = p;
      methods = ground (arith, h, q, p);
      user_allowed = ground (arith, h, q, p);
      group_allowed = ground (arith, h, q, p);
      known_as = ground (arith, h, q, p);
      has_roles = ground (arith, h, q, p);
    }
  ]
]

uid_allowed-Listed :
    (config : AuthConfig) (user : ℕ)
    → (uid_allowed config user ≡ true)
      ↔ (Listed user config.allowed_uids ⊎ ((user ≡ 0) × (config.allow_root ≡ true)))
uid_allowed-Listed config user =
    let (to, from) = contains-Listed user config.allowed_uids in
    elim (Bool-cases (contains user config.allowed_uids)) [
      | inl q ↦ ((λ h. inl (to q)), (λ h. rw q refl))
      | inr q ↦ (
        (λ h. inr (ground (arith, h, q), ground (arith, h, q))),
        (λ h. elim h [
          | inl listed ↦ absurd (ground (arith, q, from listed))
          | inr (root, allowed) ↦ ground (arith, q, root, allowed)
        ]),
      )
    ]

gid_allowed-Listed :
    (config : AuthConfig) (group : ℕ)
    → (gid_allowed config group ≡ true)
      ↔ (Listed group config.allowed_gids ⊎ (config.allowed_gids ≡ []))
gid_allowed-Listed config group =
    let (to, from) = contains-Listed group config.allowed_gids in
    elim (Bool-cases (contains group config.allowed_gids)) [
      | inl q ↦ ((λ h. inl (to q)), (λ h. rw q refl))
      | inr q ↦ (
        (λ h. inr (is_empty-nil config.allowed_gids (ground (arith, h, q)))),
        (λ h. elim h [
          | inl listed ↦ absurd (ground (arith, q, from listed))
          | inr none_listed ↦ ground (arith, q, ap is_empty none_listed)
        ]),
      )
    ]

admin_is_root :
    (user : ℕ) (client : ClientAuth)
    → client.roles ≡ get_roles_for_uid user
    → (has_role "admin" client ≡ nat_eqb user 0) × (has_role "operator" client ≡ true)
unfolding has_role get_roles_for_uid
admin_is_root user client h = elim (Bool-cases (nat_eqb user 0)) [
  | inl q ↦ rw (h, q) (refl, refl)
  | inr q ↦ rw (h, q) (refl, refl)
]

-- A peer is accepted exactly when it has a user and a group, the methods list the credentials of the
-- connection, its user is listed or is root where root is let in, and its group is listed or no groups are.
-- The client then stands for that user, is an operator, and is an administrator exactly when
-- the user is root.
pub authenticate_peer-IsAllowed :
    (now : ℕ) (config : AuthConfig) (info : ClientInfo)
    → ((client : ClientAuth)
        → authenticate_peer now config info ≡ ok client
        → (user : ℕ) × (group : ℕ) × (info.uid ≡ some user)
          × (info.gid ≡ some group)
          × IsAllowed config user group
          × (client.uid ≡ some user)
          × (has_role "admin" client ≡ nat_eqb user 0)
          × (has_role "operator" client ≡ true))
      × ((user group : ℕ)
          → info.uid ≡ some user
          → info.gid ≡ some group
          → IsAllowed config user group
          → is_ok (authenticate_peer now config info) ≡ true)
authenticate_peer-IsAllowed now config info = (
  λ client h.
      let peer = authenticate_peer-IsPeer now config info client h in
      let (admin, operator) = admin_is_root peer.user client peer.has_roles in
      (
        peer.user,
        peer.group,
        peer.is_user,
        peer.is_group,
        (
          (peers-Listed config.allowed_methods).0 peer.methods,
          (uid_allowed-Listed config peer.user).0 peer.user_allowed,
          (gid_allowed-Listed config peer.group).0 peer.group_allowed,
        ),
        peer.known_as,
        admin,
        operator,
      ),
  λ user group is_user is_group (methods, by_user, by_group).
      unfold authenticate_peer in
      rw
        (
          is_user,
          is_group,
          (peers-Listed config.allowed_methods).1 methods,
          (uid_allowed-Listed config user).1 by_user,
          (gid_allowed-Listed config group).1 by_group,
        )
        refl,
)
