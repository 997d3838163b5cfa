-- ===== src/Observability/Snapshot/Scored.antt =====
-- What the security version of a snapshot (observability/snapshot.rs) says of its score.
use project_whitequbit.Base.{
  ℕ, ◌≡◌, refl, sym, ap, ◌∙◌, String, false, List, [], ◌∷◌, ◌++◌, length, length-append, arith,
  text_key, ==_iff,
}
use mathlib.Core.List.{append_assoc}
use project_whitequbit.Base.Hash.{le_bytes}
use project_whitequbit.Observability.Posture.{AuthPosture, posture_bytes}
use project_whitequbit.Observability.Posture.Scored.{posture_bytes-score}
use project_whitequbit.Observability.Summaries.{
  Printing, PortSummary, FirewallSummary, ServicesSummary,
}
use project_whitequbit.Observability.Summaries.Bytes.{ports_bytes, firewall_bytes, services_bytes}
use project_whitequbit.Observability.Snapshot.{
  SecuritySnapshot, SnapshotBuilder, Surroundings, unwrap_or, no_ports, no_firewall, no_services,
  posture_of, differs_from, hashed_bytes, compute_security_version, build,
}

abbrev tail {ℓ} : {A : Type ℓ} → List A → List A
tail [] = []
tail (x ∷ xs) = xs

same_end {ℓ} : {A : Type ℓ} (a c b d : List A) → length b ≡ length d → a ++ b ≡ c ++ d → b ≡ d
same_end [] [] b d long same = same
same_end [] (y ∷ c) b d long same = absurd (omega (arith, long, length-append c d, ap length same))
same_end (x ∷ a) [] b d long same = absurd (omega (arith, long, length-append a b, ap length same))
same_end (x ∷ a) (y ∷ c) b d long same = same_end a c b d long (ap tail same)

length-posture_bytes : (p : AuthPosture) → length (posture_bytes p) ≡ 15
unfolding posture_bytes le_bytes
length-posture_bytes p = refl

alike-IsSame :
    (x y : SecuritySnapshot) → differs_from x y ≡ false → x.security_version ≡ y.security_version
unfolding differs_from
alike-IsSame x y alike = (==_iff x.security_version y.security_version).0 (ground (arith, alike))

module _ (version_digest : List ℕ → String) (printing : Printing) where
  -- The bytes before those of the posture.
  abbrev front : PortSummary → FirewallSummary → ServicesSummary → List ℕ
  front ports firewall services =
      ports_bytes printing ports
      ++ (255 ∷ firewall_bytes printing firewall
          ++ (255 ∷ services_bytes printing services ++ (255 ∷ [])))

  hashed_bytes-front :
      (ports : PortSummary) (firewall : FirewallSummary) (services : ServicesSummary)
      (auth : AuthPosture)
      → hashed_bytes version_digest printing ports firewall services auth
        ≡ front ports firewall services ++ posture_bytes auth
  unfolding hashed_bytes
  hashed_bytes-front ports firewall services auth = sym (simp append_assoc)

  abbrev pub hashed_of : SnapshotBuilder → List ℕ
  hashed_of b =
      hashed_bytes version_digest printing (unwrap_or no_ports b.ports)
        (unwrap_or no_firewall b.firewall) (unwrap_or no_services b.services) (posture_of b)

  abbrev prefix : SnapshotBuilder → List ℕ
  prefix b =
      front (unwrap_or no_ports b.ports) (unwrap_or no_firewall b.firewall)
        (unwrap_or no_services b.services)

  parts : (b : SnapshotBuilder) → hashed_of b ≡ prefix b ++ posture_bytes (posture_of b)
  parts b =
      hashed_bytes-front (unwrap_or no_ports b.ports) (unwrap_or no_firewall b.firewall)
        (unwrap_or no_services b.services) (posture_of b)

  -- When two built snapshots do not differ, that is, have one security version, and the hash does
  -- not take the two sequences of hashed bytes to one value unless they are equal, the two
  -- snapshots have the same security score.
  pub differs_from-score :
      (around later : Surroundings) (b c : SnapshotBuilder)
      → (version_digest (hashed_of b) ≡ version_digest (hashed_of c) → hashed_of b ≡ hashed_of c)
      → differs_from
          (build version_digest printing around b)
          (build version_digest printing later c)
        ≡ false
      → (build version_digest printing around b).score
        ≡ (build version_digest printing later c).score
  unfolding build compute_security_version
  differs_from-score around later b c collision_free alike =
      let one = collision_free (alike-IsSame _ _ alike) in
      posture_bytes-score (posture_of b) (posture_of c) (
        same_end (prefix b) (prefix c) (posture_bytes (posture_of b)) (posture_bytes (posture_of c))
          (length-posture_bytes (posture_of b) ∙ sym (length-posture_bytes (posture_of c)))
          (sym (parts b) ∙ one ∙ parts c))
