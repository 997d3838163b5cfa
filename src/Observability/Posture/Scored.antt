-- ===== src/Observability/Posture/Scored.antt =====
-- What the bytes of an authentication posture (observability/snapshot.rs) determine of it.
use project_whitequbit.Base.{
  ℕ, zero, suc, ◌≡◌, refl, sym, ap, ◌∙◌, Bool, true, false, List, [], ◌∷◌, number_key, ◌==◌,
  if◌then◌else◌,
}
use project_whitequbit.Base.Hash.{le_bytes}
use project_whitequbit.Observability.Posture.{
  SshHardeningLevel, hardened, partial, default_level, not_applicable, unknown_level,
  PasswordPolicyStrength, strong, moderate, weak, unknown_strength, AuthPosture, hardening_number,
  strength_number, flag_number, posture_bytes, saturating_add, capped, hardening_points,
  strength_points, granted, security_score,
}

unfoldable byte_at : ℕ → List ℕ → ℕ
byte_at k [] = 0
byte_at zero (b ∷ bs) = b
byte_at (suc k) (b ∷ bs) = byte_at k bs

abbrev hardening_read : ℕ → ℕ
hardening_read b = if b == 0 then 15 else if b == 1 then 5 else 0

abbrev strength_read : ℕ → ℕ
strength_read b = if b == 0 then 5 else if b == 1 then 2 else 0

hardening_read-number :
    (l : SshHardeningLevel) → hardening_read (hardening_number l) ≡ hardening_points l
hardening_read-number hardened = refl
hardening_read-number partial = refl
hardening_read-number default_level = refl
hardening_read-number not_applicable = refl
hardening_read-number unknown_level = refl

strength_read-number :
    (s : PasswordPolicyStrength) → strength_read (strength_number s) ≡ strength_points s
strength_read-number strong = refl
strength_read-number moderate = refl
strength_read-number weak = refl
strength_read-number unknown_strength = refl

flag_read-number : (b : Bool) → (flag_number b == 1) ≡ b
flag_read-number true = refl
flag_read-number false = refl

-- The score, read off the bytes.
unfoldable score_of : List ℕ → ℕ
score_of bs =
    let ssh = saturating_add (hardening_read (byte_at 0 bs)) 50 in
    let root = granted (byte_at 1 bs == 1) 10 ssh in
    let password = granted (byte_at 2 bs == 1) 10 root in
    let mac = granted (byte_at 11 bs == 1) 10 password in
    let policy = saturating_add (strength_read (byte_at 12 bs)) mac in
    let mfa = granted (byte_at 13 bs == 1) 10 policy in capped (granted (byte_at 14 bs == 1) 5 mfa)

score_of-bytes : (p : AuthPosture) → security_score p ≡ score_of (posture_bytes p)
unfolding security_score score_of posture_bytes le_bytes byte_at
score_of-bytes p =
    rw
      (
        hardening_read-number p.ssh_hardening,
        flag_read-number p.root_login_disabled,
        flag_read-number p.password_auth_disabled,
        flag_read-number p.mac_enforcing,
        strength_read-number p.password_policy,
        flag_read-number p.mfa_configured,
        flag_read-number p.audit_enabled,
      )
      refl

-- Two authentication postures whose canonical bytes, as they enter the hash of the security
-- version, are the same have the same security score.
pub posture_bytes-score :
    (p q : AuthPosture) → posture_bytes p ≡ posture_bytes q → security_score p ≡ security_score q
posture_bytes-score p q same = score_of-bytes p ∙ ap score_of same ∙ sym (score_of-bytes q)
