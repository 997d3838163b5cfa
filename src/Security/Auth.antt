-- ===== src/Security/Auth.antt =====
-- security/auth.rs: who a client is. `hash_token` is a parameter, the BLAKE3 hash of a token; `now` is the
-- time of a call. The group lookup of the source returns no group. An error is the text it holds,
-- with the identifier apart.
pub mod Acceptance
use project_whitequbit.Base.{
  ℕ, ◌++◌, String, Bool, true, false, Option, none, some, List, [], ◌∷◌, any, is_empty, ltb,
  nat_eqb, not, ◌||◌, ◌&&◌, Result, ok, err, guard, ok_or, ◌>>=◌, ◌>>◌, text_key, number_key, ◌==◌,
  if◌then◌else◌,
}
use project_whitequbit.Base.Map
use project_whitequbit.Base.Map.{Map}

pub data AuthMethod : Type 0 where
  peer_credentials token certificate no_method : AuthMethod

pub record ClientAuth : Type 0 where
  pub client_id : String
  pub method : AuthMethod
  pub uid : Option ℕ
  pub gid : Option ℕ
  pub groups : List String
  pub roles : List String
  pub authenticated_at : ℕ
  pub expires_at : Option ℕ

abbrev pub has_passed : ℕ → Option ℕ → Bool
has_passed now none = false
has_passed now (some expires) = ltb expires now

unfoldable pub is_expired : ℕ → ClientAuth → Bool
is_expired now client = has_passed now client.expires_at

unfoldable pub has_role : String → ClientAuth → Bool
has_role role client = any (λ r. r == role) client.roles

unfoldable pub in_group : String → ClientAuth → Bool
in_group group client = any (λ g. g == group) client.groups

pub record TokenConfig : Type 0 where
  pub roles : List String
  pub uid : Option ℕ
  pub expires_at : Option ℕ

pub record AuthConfig : Type 0 where
  pub allowed_methods : List AuthMethod
  pub allowed_uids : List ℕ
  pub allowed_gids : List ℕ
  pub tokens : Map String TokenConfig
  pub allow_root : Bool

unfoldable pub default_config : AuthConfig
default_config = record {
  allowed_methods = peer_credentials ∷ [];
  allowed_uids = 0 ∷ [];
  allowed_gids = 0 ∷ [];
  tokens = [];
  allow_root = true;
}

pub data AuthError : Type 0 where
  peer_not_allowed no_uid no_gid token_not_allowed invalid_token token_expired : AuthError
  uid_not_listed gid_not_listed : ℕ → AuthError

-- What a connection tells of its client, as far as it is read here.
pub record ClientInfo : Type 0 where
  pub id : String
  pub uid : Option ℕ
  pub gid : Option ℕ

abbrev pub contains : ℕ → List ℕ → Bool
contains n ns = any (λ m. nat_eqb m n) ns

abbrev is_peer : AuthMethod → Bool
is_peer peer_credentials = true
is_peer _ = false

abbrev is_token : AuthMethod → Bool
is_token token = true
is_token _ = false

-- Whether a user, and a group, is accepted.
abbrev pub uid_allowed : AuthConfig → ℕ → Bool
uid_allowed config uid = contains uid config.allowed_uids || (nat_eqb uid 0 && config.allow_root)

abbrev pub gid_allowed : AuthConfig → ℕ → Bool
gid_allowed config gid = contains gid config.allowed_gids || is_empty config.allowed_gids

abbrev pub allows_peers : AuthConfig → Bool
allows_peers config = any is_peer config.allowed_methods

abbrev pub allows_tokens : AuthConfig → Bool
allows_tokens config = any is_token config.allowed_methods

unfoldable pub get_roles_for_uid : ℕ → List String
get_roles_for_uid uid = if nat_eqb uid 0 then "admin" ∷ "operator" ∷ [] else "operator" ∷ []

unfoldable pub authenticate_peer : ℕ → AuthConfig → ClientInfo → Result AuthError ClientAuth
unfolding get_roles_for_uid
authenticate_peer now config info = do
  guard (allows_peers config) peer_not_allowed
  uid ← ok_or info.uid no_uid
  gid ← ok_or info.gid no_gid
  guard (uid_allowed config uid) (uid_not_listed uid)
  guard (gid_allowed config gid) (gid_not_listed gid)
  ok (record {
    client_id = info.id;
    method = peer_credentials;
    uid = some uid;
    gid = some gid;
    groups = [];
    roles = get_roles_for_uid uid;
    authenticated_at = now;
    expires_at = none;
  })

unfoldable pub authenticate_token :
    (String → String) → ℕ → AuthConfig → String → String → Result AuthError ClientAuth
authenticate_token hash_token now config client_id secret = do
  guard (allows_tokens config) token_not_allowed
  found ← ok_or (Map.get (hash_token secret) config.tokens) invalid_token
  guard (not (has_passed now found.expires_at)) token_expired
  ok (record {
    client_id = client_id;
    method = token;
    uid = found.uid;
    gid = none;
    groups = [];
    roles = found.roles;
    authenticated_at = now;
    expires_at = found.expires_at;
  })

unfoldable pub allow_uid : ℕ → AuthConfig → AuthConfig
allow_uid uid config =
    if contains uid config.allowed_uids
    then config
    else record config { allowed_uids = config.allowed_uids ++ uid ∷ [] }

unfoldable pub allow_gid : ℕ → AuthConfig → AuthConfig
allow_gid gid config =
    if contains gid config.allowed_gids
    then config
    else record config { allowed_gids = config.allowed_gids ++ gid ∷ [] }
