-- ===== src/Rollback/Checkpoint/Latest.antt =====
-- A checkpoint that was created is the one that is loaded, and few enough files are left.
use project_whitequbit.Base.{
  ℕ, zero, suc, ◌+◌, ◌-◌, ◌≤◌, ◌<◌, ◌≡◌, refl, ap, sym, subst, ◌∙◌, u64, Bool, true, false, some,
  List, [], ◌∷◌, ◌++◌, ok, length, length-append, ltb, nat_eqb, reverse, if◌then◌else◌, arith,
  text_key, ==_iff,
}
use mathlib.Core.List.{reverse-append}
use project_whitequbit.Base.Hash.{Hashing}
use project_whitequbit.Base.Sorted.{NumberedMap, put_at}
use project_whitequbit.Rollback.Checkpoint.{
  Checkpoint, CheckpointFile, holding, CheckpointManager, new_checkpoint, finalize,
  checkpoint_checksum, verify_checkpoint, save_checkpoint, drop_oldest, cleaned,
  cleanup_old_checkpoints, create_checkpoint, first_verified, load_latest,
}

-- The files have numbers below a bound.
abbrev pub Below : ℕ → NumberedMap CheckpointFile → Type 0
Below n [] = Unit
Below n ((k, f) ∷ files) = (k < n) × Below n files

-- A greater number goes to the end.
put_at-last :
    (n : ℕ) (f : CheckpointFile) (files : NumberedMap CheckpointFile)
    → Below n files
    → put_at n f files ≡ files ++ (n, f) ∷ []
unfolding put_at
put_at-last n f [] b = refl
put_at-last n f ((k, g) ∷ files) (lt, b) =
    let not_less : ltb n k ≡ false = ground (arith, lt) in
    let not_equal : nat_eqb n k ≡ false = ground (arith, lt) in
    rw (not_less, not_equal, put_at) (ap (λ m. (k, g) ∷ m) (put_at-last n f files b))

-- Fewer than all are dropped from a list with an end: the end stays.
drop_oldest-last :
    (n : ℕ) (files : NumberedMap CheckpointFile) (x : ℕ × CheckpointFile)
    → n ≤ length files
    → drop_oldest n (files ++ x ∷ []) ≡ drop_oldest n files ++ x ∷ []
drop_oldest-last zero files x h = refl
drop_oldest-last (suc n) [] x h = ground (arith, h)
drop_oldest-last (suc n) (f ∷ files) x h = drop_oldest-last n files x (omega (arith, h))

length-drop_oldest :
    (n : ℕ) (files : NumberedMap CheckpointFile) → length (drop_oldest n files) ≡ length files - n
length-drop_oldest zero files = omega arith
length-drop_oldest (suc n) [] = omega arith
length-drop_oldest (suc n) (f ∷ files) = length-drop_oldest n files ∙ omega arith

then_branch : {A : Type 0} (b : Bool) (x y : A) → b ≡ true → (if b then x else y) ≡ x
then_branch true x y q = refl
then_branch false x y q = ground arith

module _ (hashing : Hashing (List ℕ)) where
  finalize-verifies : (c : Checkpoint) → verify_checkpoint hashing (finalize hashing c) ≡ true
  unfolding verify_checkpoint finalize checkpoint_checksum
  finalize-verifies c =
      (==_iff (checkpoint_checksum hashing c) (checkpoint_checksum hashing c)).1 refl

  first_verified-last :
      (files : NumberedMap CheckpointFile) (n : ℕ) (c : Checkpoint)
      → verify_checkpoint hashing c ≡ true
      → first_verified hashing (reverse (files ++ (n, holding c) ∷ [])) ≡ some c
  unfolding first_verified
  first_verified-last files n c v =
      ap (first_verified hashing) (reverse-append files ((n, holding c) ∷ [])) ∙ rw v refl

  -- The directory after a checkpoint is saved and the oldest ones are removed.
  abbrev after_saving : Checkpoint → CheckpointManager → NumberedMap CheckpointFile
  after_saving c m =
      drop_oldest (length (put_at c.id (holding c) m.files) - m.max_checkpoints)
        (put_at c.id (holding c) m.files)

  after_saving-last :
      (c : Checkpoint) (m : CheckpointManager)
      → Below c.id m.files
      → 1 ≤ m.max_checkpoints
      → after_saving c m
        ≡ drop_oldest (length (put_at c.id (holding c) m.files) - m.max_checkpoints) m.files
          ++ (c.id, holding c) ∷ []
  after_saving-last c m below several =
      let at_end = put_at-last c.id (holding c) m.files below in
      let few : length (put_at c.id (holding c) m.files) - m.max_checkpoints ≤ length m.files =
        omega (arith, ap length at_end, length-append m.files ((c.id, holding c) ∷ []), several) in
      ap (drop_oldest (length (put_at c.id (holding c) m.files) - m.max_checkpoints)) at_end
      ∙ drop_oldest-last _ m.files (c.id, holding c) few

  -- The checkpoint that is made, whatever the collector puts into it.
  abbrev pub made : ℕ → (Checkpoint → Checkpoint) → ℕ → CheckpointManager → Checkpoint
  made last_entry_id collect now m =
      finalize hashing (collect (new_checkpoint m.next_id last_entry_id now))

  create_checkpoint-made :
      (last_entry_id : ℕ) (collect : Checkpoint → Checkpoint) (now : ℕ) (m : CheckpointManager)
      → m.healthy ≡ true
      → let c = made last_entry_id collect now m in
        create_checkpoint hashing last_entry_id collect now m
        ≡ (record m { next_id = u64 (m.next_id + 1); files = after_saving c m }, ok c)
  unfolding create_checkpoint save_checkpoint cleanup_old_checkpoints
  create_checkpoint-made last_entry_id collect now m well =
      let c = made last_entry_id collect now m in
      ap (cleaned c) (then_branch m.healthy _ _ well)
      ∙ ap (λ m'. (m', ok c)) (then_branch m.healthy _ _ well)

  -- Where files can be written and at least one is kept, and all have numbers below the next one, which
  -- the collector leaves as it is: creating a checkpoint succeeds, it is the one that is loaded, and no
  -- more files are left than are allowed.
  pub create_checkpoint-latest :
      (last_entry_id : ℕ) (collect : Checkpoint → Checkpoint) (now : ℕ) (m : CheckpointManager)
      → m.healthy ≡ true
      → Below m.next_id m.files
      → 1 ≤ m.max_checkpoints
      → (made last_entry_id collect now m).id ≡ m.next_id
      → let (m', r) = create_checkpoint hashing last_entry_id collect now m in
        (r ≡ ok (made last_entry_id collect now m))
        × (load_latest hashing m' ≡ some (made last_entry_id collect now m))
        × (length m'.files ≤ m.max_checkpoints)
  unfolding load_latest
  create_checkpoint-latest last_entry_id collect now m well below several same =
      let c = made last_entry_id collect now m in
      let last = after_saving-last c m (subst (λ n. Below n m.files) (sym same) below) several in
      let many = length (put_at c.id (holding c) m.files) in
      subst
        (λ o.
          (o.1 ≡ ok c)
          × (load_latest hashing o.0 ≡ some c)
          × (length o.0.files ≤ m.max_checkpoints))
        (sym (create_checkpoint-made last_entry_id collect now m well))
        (
          refl,
          ap (λ files. first_verified hashing (reverse files)) last
              ∙ first_verified-last (drop_oldest (many - m.max_checkpoints) m.files) c.id c
                  (finalize-verifies _),
          omega (
            arith,
            length-drop_oldest (many - m.max_checkpoints) (put_at c.id (holding c) m.files),
          ),
        )
