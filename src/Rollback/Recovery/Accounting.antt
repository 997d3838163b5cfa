-- ===== src/Rollback/Recovery/Accounting.antt =====
-- What a recovery reports.
use project_whitequbit.Base.{
  ℕ, ◌+◌, ◌≡◌, refl, String, true, List, [], ◌∷◌, ◌++◌, length, length-append, is_empty, not, arith,
  Bool-cases, inl, inr,
}
use project_whitequbit.Base.Hash.{Hashing}
use project_whitequbit.Rollback.Journal.{Journal, get_uncommitted}
use project_whitequbit.Rollback.Compensator.{CompensationResult, Compensator, compensate_all}
use project_whitequbit.Rollback.Compensator.Order.{length-compensate_all}
use project_whitequbit.Rollback.Recovery.{
  success, partial, is_complete, uncommitted_count, process_results, recover,
}

length-empty : {A : Type 0} (xs : List A) → is_empty xs ≡ true → length xs ≡ 0
length-empty [] h = refl
length-empty (x ∷ xs) h = ground arith

module _ {D : Type 0} (hashing : Hashing D) where
  processed :
      (detail : ℕ → String → String) (now : ℕ) (rs : List CompensationResult) (j : Journal D)
      (n : ℕ) (ds : List String)
      → (process_results hashing detail now rs (j, n, ds)).1
          + length (process_results hashing detail now rs (j, n, ds)).2
        ≡ n + length ds + length rs
  unfolding process_results
  processed detail now [] j n ds = omega arith
  processed detail now (r ∷ rs) j n ds = elim (Bool-cases r.success) [
    | inl q ↦ rw (q, process_results) (omega (arith, processed detail now rs _ (n + 1) ds))
    | inr q ↦
        rw (q, process_results)
          (omega (arith, processed detail now rs _ n (ds ++ _ ∷ []), length-append ds (_ ∷ [])))
  ]

  -- A recovery counts each uncommitted entry once, as recovered or as failed; there is a detail for
  -- each failure, and intervention is asked for exactly when the recovery is not complete.
  pub recover_accounts :
      {W : Type 0} (detail : ℕ → String → String) (no_handler : String → String)
      (c : Compensator W D) (now : ℕ) (j : Journal D) (w : W)
      → let r = (recover hashing detail no_handler c now (j, w)).1 in
        (r.entries_recovered + r.entries_failed ≡ uncommitted_count j)
        × (length r.failed_details ≡ r.entries_failed)
        × (r.requires_intervention ≡ not (is_complete r))
  unfolding recover success partial is_complete uncommitted_count
  recover_accounts detail no_handler c now j w =
      let es = get_uncommitted j in
      let results = (compensate_all no_handler c es w).1 in
      let counted = processed detail now results j 0 [] in
      ground (arith, counted, length-compensate_all no_handler c es w, length-empty es)
