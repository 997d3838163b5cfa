-- ===== src/Observability/Versioning/History/Stale.antt =====
-- The index by hash holds positions that an eviction leaves as they were.
use project_whitequbit.Base.{
  ℕ, ◌≤◌, ◌≡◌, ◌≢◌, refl, ap, ◌∙◌, Bool, true, false, some, List, [], ◌∷◌, ◌++◌, length, leb,
  if◌then◌else◌, arith, text_key, ◌==◌, ==_iff, Bool-cases, inl, inr,
}
use project_whitequbit.Base.Map
use project_whitequbit.Base.Map.{Map, get-insert, get-remove}
use project_whitequbit.Base.Sorted.{NumberedMap}
use project_whitequbit.Observability.Versioning.Version.{VersionHash, SecurityVersion}
use project_whitequbit.Observability.Versioning.History.{
  VersionHistory, added, pop_oldest, nth, at, push_version, get_version,
}

then_branch : {A : Type 0} (b : Bool) (x y : A) → b ≡ true → (if b then x else y) ≡ x
then_branch true x y q = refl
then_branch false x y q = ground arith

differs : (a b : VersionHash) → a ≢ b → (a == b) ≡ false
differs a b ne = elim (Bool-cases (a == b)) [ inr n ↦ n | inl y ↦ elim (ne ((==_iff a b).0 y)) [ ] ]

abbrev pub history :
    ℕ → List SecurityVersion → Map VersionHash ℕ → NumberedMap VersionHash → VersionHistory
history max_size versions by_hash by_sequence = record {
  max_size = max_size;
  versions = versions;
  by_hash = by_hash;
  by_sequence = by_sequence;
}

-- When a version is pushed on a full history whose index gives position 1 for the version after the
-- oldest one, as it does as long as nothing was evicted, looking for that version by its hash, which is another than
-- those of the oldest and the new one, gives the version that comes after it.
pub evicted_get_wrong :
    (max_size : ℕ) (oldest second new : SecurityVersion) (rest : List SecurityVersion)
    (by_hash : Map VersionHash ℕ) (by_sequence : NumberedMap VersionHash)
    → max_size ≤ length (oldest ∷ second ∷ rest)
    → Map.get second.version_hash by_hash ≡ some 1
    → oldest.version_hash ≢ second.version_hash
    → new.version_hash ≢ second.version_hash
    → get_version second.version_hash
        (push_version new (history max_size (oldest ∷ second ∷ rest) by_hash by_sequence))
      ≡ nth 0 (rest ++ new ∷ [])
unfolding get_version push_version
evicted_get_wrong max_size oldest second new rest by_hash by_sequence full indexed ne ne' =
    let h = history max_size (oldest ∷ second ∷ rest) by_hash by_sequence in
    let popped =
      then_branch (leb max_size (length (oldest ∷ second ∷ rest))) (pop_oldest h.versions h) h
        (ground (arith, full)) in
    let looked_up : Map.get second.version_hash (
          Map.insert new.version_hash (length (second ∷ rest))
            (Map.remove oldest.version_hash by_hash))
        ≡ some 1 =
      get-insert new.version_hash second.version_hash _ _
      ∙ rw (differs _ _ ne') (
          get-remove oldest.version_hash second.version_hash by_hash
          ∙ rw (differs _ _ ne) indexed) in
    ap (λ g. get_version second.version_hash (added new g)) popped
    ∙ ap (λ o. at o (second ∷ rest ++ new ∷ [])) looked_up
