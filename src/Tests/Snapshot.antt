-- ===== src/Tests/Snapshot.antt =====
-- observability/snapshot.rs on concrete inputs.
use project_whitequbit.Base.{ℕ, ◌≡◌, refl, String, true, List, [], ◌∷◌, length, if◌then◌else◌, ltb}
use project_whitequbit.Base.Hash.{le_bytes}
use project_whitequbit.Observability.Posture.{
  AuthPosture, default_posture, posture_bytes, hardened, security_score,
}
use project_whitequbit.Observability.Summaries.{Printing}
use project_whitequbit.Observability.Summaries.Bytes.{
  ports_bytes, firewall_bytes, services_bytes, all_ports, all_rules, all_services,
}
use project_whitequbit.Observability.Snapshot.{
  SnapshotBuilder, Surroundings, new_builder, with_posture, with_sequence, build, differs_from,
  hashed_bytes, compute_security_version,
}
use project_whitequbit.Observability.Snapshot.Scored.{differs_from-score}

abbrev printing : Printing
printing = record { text_bytes = λ s. 7 ∷ []; decimal_bytes = λ n. n ∷ [] }

abbrev version_digest : List ℕ → String
version_digest bs = if ltb 30 (length bs) then "long" else "short"

abbrev around : Surroundings
around = record {
  id = "a";
  now = 5;
  hostname = "host";
  agent_version = "1";
  collection_duration = 2;
}

abbrev strict : AuthPosture
unfolding default_posture
strict = record default_posture { ssh_hardening = hardened; mfa_configured = true }

-- The failed logins do not enter the hash.
abbrev attacked : AuthPosture
attacked = record strict { recent_failed_logins = 9 }

strict_score : security_score strict ≡ 75
unfolding default_posture security_score
strict_score = refl

abbrev calm_builder : SnapshotBuilder
unfolding with_posture new_builder
calm_builder = with_posture strict new_builder

abbrev attacked_builder : SnapshotBuilder
unfolding with_posture with_sequence new_builder
attacked_builder = with_sequence 1 (with_posture attacked new_builder)

differs_from-score_example :
    (build version_digest printing around calm_builder).score
    ≡ (build version_digest printing around attacked_builder).score
unfolding hashed_bytes build differs_from compute_security_version posture_bytes ports_bytes
    firewall_bytes services_bytes all_ports all_rules all_services default_posture le_bytes
    calm_builder attacked_builder
differs_from-score_example =
    differs_from-score version_digest printing around around calm_builder attacked_builder
      (λ same. refl) refl
