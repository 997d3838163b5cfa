-- ===== src/Audit/Immutable/Merkle.antt =====
-- audit/immutable.rs: the root of a Merkle tree over the hashes since the last checkpoint. The loop over
-- the levels takes fuel; as many rounds as there are hashes are enough.
pub mod Levels
use project_whitequbit.Base.{
  ℕ, zero, suc, String, Bool, true, false, Option, none, some, List, [], ◌∷◌, ◌++◌, length, ltb,
  if◌then◌else◌,
}
use project_whitequbit.Base.Hash.{Hashing}

-- `next().unwrap_or_default()`
abbrev pub first_or_empty : List String → String
first_or_empty [] = ""
first_or_empty (h ∷ hs) = h

module _ {D : Type 0} (hashing : Hashing D) where
  open hashing use {digest, text_bytes}

  unfoldable pub parent : String → String → String
  parent a b = digest (text_bytes a ++ text_bytes b)

  -- The loop over `chunks(2)`: a last hash without a partner is its own.
  unfoldable pub next_level : List String → List String
  next_level [] = []
  next_level (a ∷ []) = parent a a ∷ []
  next_level (a ∷ b ∷ hs) = parent a b ∷ next_level hs

  -- `while level.len() > 1`
  unfoldable pub build : ℕ → List String → List String
  unfolding next_level
  build zero level = level
  build (suc rounds) level =
      let higher = build rounds (next_level level) in if ltb 1 (length level) then higher else level

  unfoldable pub compute_merkle_root : List String → String
  unfolding build
  compute_merkle_root hashes = first_or_empty (build (length hashes) hashes)
