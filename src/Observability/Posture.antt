-- ===== src/Observability/Posture.antt =====
-- The authentication posture of observability/snapshot.rs: how the logins of the system are secured,
-- the bytes of it that go into the security version, and its score.
pub mod Scored
use project_whitequbit.Base.{
  ℕ, zero, suc, ◌+◌, ◌≡◌, String, Bool, true, false, Option, none, List, [], ◌∷◌, ◌++◌, ltb, ◌==◌,
  if◌then◌else◌,
}
use project_whitequbit.Base.Hash.{le_bytes}

pub data SshHardeningLevel : Type 0 where
  hardened : SshHardeningLevel
  partial : SshHardeningLevel
  default_level : SshHardeningLevel
  not_applicable : SshHardeningLevel
  unknown_level : SshHardeningLevel

pub data PasswordPolicyStrength : Type 0 where
  strong : PasswordPolicyStrength
  moderate : PasswordPolicyStrength
  weak : PasswordPolicyStrength
  unknown_strength : PasswordPolicyStrength

pub record AuthPosture : Type 0 where
  pub ssh_hardening : SshHardeningLevel
  pub root_login_disabled : Bool
  pub password_auth_disabled : Bool
  pub users_with_shell : ℕ
  pub sudo_users : ℕ
  pub mac_enforcing : Bool
  pub mac_system : Option String
  pub password_policy : PasswordPolicyStrength
  pub mfa_configured : Bool
  pub recent_failed_logins : ℕ
  pub audit_enabled : Bool

unfoldable pub default_posture : AuthPosture
default_posture = record {
  ssh_hardening = unknown_level;
  root_login_disabled = false;
  password_auth_disabled = false;
  users_with_shell = 0;
  sudo_users = 0;
  mac_enforcing = false;
  mac_system = none;
  password_policy = unknown_strength;
  mfa_configured = false;
  recent_failed_logins = 0;
  audit_enabled = false;
}

-- `as u8` of a level, of a strength and of a Boolean.
abbrev hardening_number : SshHardeningLevel → ℕ
hardening_number hardened = 0
hardening_number partial = 1
hardening_number default_level = 2
hardening_number not_applicable = 3
hardening_number unknown_level = 4

abbrev strength_number : PasswordPolicyStrength → ℕ
strength_number strong = 0
strength_number moderate = 1
strength_number weak = 2
strength_number unknown_strength = 3

abbrev flag_number : Bool → ℕ
flag_number false = 0
flag_number true = 1

-- `AuthPosture::canonical_bytes`; `le_bytes 4` keeps the low 32 bits, as the cast to `u32` does.
unfoldable pub posture_bytes : AuthPosture → List ℕ
unfolding le_bytes
posture_bytes p =
    hardening_number p.ssh_hardening
    ∷ flag_number p.root_login_disabled
    ∷ flag_number p.password_auth_disabled
    ∷ (le_bytes 4 p.users_with_shell
        ++ (le_bytes 4 p.sudo_users
            ++ (flag_number p.mac_enforcing
                ∷ strength_number p.password_policy
                ∷ flag_number p.mfa_configured
                ∷ flag_number p.audit_enabled
                ∷ [])))

-- `u8::saturating_add`, and `u8::min` with 100.
abbrev saturating_add : ℕ → ℕ → ℕ
saturating_add points score = if ltb 255 (score + points) then 255 else score + points

abbrev capped : ℕ → ℕ
capped score = if ltb 100 score then 100 else score

abbrev hardening_points : SshHardeningLevel → ℕ
hardening_points hardened = 15
hardening_points partial = 5
hardening_points default_level = 0
hardening_points not_applicable = 0
hardening_points unknown_level = 0

abbrev strength_points : PasswordPolicyStrength → ℕ
strength_points strong = 5
strength_points moderate = 2
strength_points weak = 0
strength_points unknown_strength = 0

abbrev granted : Bool → ℕ → ℕ → ℕ
granted true points score = saturating_add points score
granted false points score = score

unfoldable pub security_score : AuthPosture → ℕ
security_score p =
    let ssh = saturating_add (hardening_points p.ssh_hardening) 50 in
    let root = granted p.root_login_disabled 10 ssh in
    let password = granted p.password_auth_disabled 10 root in
    let mac = granted p.mac_enforcing 10 password in
    let policy = saturating_add (strength_points p.password_policy) mac in
    let mfa = granted p.mfa_configured 10 policy in capped (granted p.audit_enabled 5 mfa)
