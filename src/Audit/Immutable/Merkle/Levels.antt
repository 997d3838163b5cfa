-- ===== src/Audit/Immutable/Merkle/Levels.antt =====
-- The loop over the levels ends with the root.
use project_whitequbit.Base.{
  ℕ, zero, suc, ◌+◌, ◌/◌, ◌≤◌, ◌<◌, ◌≡◌, refl, sym, ◌∙◌, String, List, [], ◌∷◌, length, ltb, min,
  arith, Bool-cases, inl, inr,
}
use project_whitequbit.Base.Hash.{Hashing}
use project_whitequbit.Audit.Immutable.Merkle.{next_level, build}

module _ {D : Type 0} (hashing : Hashing D) where
  length-next_level : (hs : List String) → length (next_level hashing hs) ≡ (length hs + 1) / 2
  unfolding next_level
  length-next_level [] = omega arith
  length-next_level (a ∷ []) = omega arith
  length-next_level (a ∷ b ∷ hs) = omega (arith, length-next_level hs)

  build-single : (n : ℕ) (hs : List String) → length hs ≤ 1 → build hashing n hs ≡ hs
  unfolding build
  build-single zero hs h = refl
  build-single (suc n) hs h = ground arith

  -- More rounds than there are hashes change nothing.
  rounds_suffice :
      (n k : ℕ) (hs : List String)
      → length hs ≤ n
      → length hs ≤ k
      → build hashing n hs ≡ build hashing k hs
  unfolding build
  rounds_suffice zero k hs h g = sym (build-single k hs (omega (arith, h)))
  rounds_suffice (suc n) zero hs h g = build-single (suc n) hs (omega (arith, g))
  rounds_suffice (suc n) (suc k) hs h g = elim (Bool-cases (ltb 1 (length hs))) [
    | inr q ↦ rw (q, build) refl
    | inl q ↦
        let several : 1 < length hs = ground (arith, q) in
        rw (q, build)
          (rounds_suffice n k (next_level hashing hs)
            (omega (arith, length-next_level hs, several, h))
            (omega (arith, length-next_level hs, several, g)))
  ]

  length-build :
      (n : ℕ) (hs : List String) → length hs ≤ n → length (build hashing n hs) ≡ min 1 (length hs)
  unfolding build
  length-build zero hs h = omega (arith, h)
  length-build (suc n) hs h = elim (Bool-cases (ltb 1 (length hs))) [
    | inr q ↦ rw (q, build) (ground (arith, q))
    | inl q ↦
        let several : 1 < length hs = ground (arith, q) in
        let rest =
          length-build n (next_level hashing hs)
            (omega (arith, length-next_level hs, several, h)) in
        rw (q, build) (rest ∙ omega (arith, length-next_level hs, several))
  ]

  -- As many rounds as there are hashes end the loop over the levels, with one hash left if there was
  -- any and none if there was none; further rounds do not change the result.
  pub build_ends :
      (n : ℕ) (hs : List String)
      → length hs ≤ n
      → (length (build hashing (length hs) hs) ≡ min 1 (length hs))
        × (build hashing n hs ≡ build hashing (length hs) hs)
  build_ends n hs h =
      (length-build (length hs) hs (omega arith), rounds_suffice n (length hs) hs h (omega arith))
