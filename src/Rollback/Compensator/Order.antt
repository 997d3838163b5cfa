-- ===== src/Rollback/Compensator/Order.antt =====
-- In which order entries are compensated, and that none is left out or taken twice.
use project_whitequbit.Base.{
  ℕ, zero, suc, length, ◌∙◌, Result-cases, ◌+◌, ◌≤◌, ◌≡◌, refl, String, List, [], ◌∷◌, nat_eqb, leb,
  map, All, All-imp, if◌then◌else◌, arith, Bool-cases, Option-cases, inl, inr, text_key,
}
use project_whitequbit.Base.Map
use project_whitequbit.Rollback.Journal.{UncommittedEntry}
use project_whitequbit.Rollback.Compensator.{
  CompensationResult, success_of, failure_of, Handler, Compensator, insert_latest, sort_latest,
  attempts, compensate, compensate_each, compensate_all,
}

abbrev pub occurrences : ℕ → List ℕ → ℕ
occurrences id [] = 0
occurrences id (x ∷ xs) = (if nat_eqb x id then 1 else 0) + occurrences id xs

abbrev pub Descending : List ℕ → Type 0
Descending [] = Unit
Descending (x ∷ xs) = All (λ y. y ≤ x) xs × Descending xs

abbrev pub entry_ids : {D : Type 0} → List (UncommittedEntry D) → List ℕ
entry_ids es = map (λ e. e.id) es

abbrev pub result_ids : List CompensationResult → List ℕ
result_ids rs = map (λ r. r.entry_id) rs

module _ {D : Type 0} where
  occurrences-insert_latest :
      (id : ℕ) (e : UncommittedEntry D) (es : List (UncommittedEntry D))
      → occurrences id (entry_ids (insert_latest e es)) ≡ occurrences id (entry_ids (e ∷ es))
  unfolding insert_latest
  occurrences-insert_latest id e [] = refl
  occurrences-insert_latest id e (x ∷ xs) = ground (arith, occurrences-insert_latest id e xs)

  length-insert_latest :
      (e : UncommittedEntry D) (es : List (UncommittedEntry D))
      → length (insert_latest e es) ≡ 1 + length es
  unfolding insert_latest
  length-insert_latest e [] = refl
  length-insert_latest e (x ∷ xs) = ground (arith, length-insert_latest e xs)

  length-sort_latest : (es : List (UncommittedEntry D)) → length (sort_latest es) ≡ length es
  unfolding sort_latest
  length-sort_latest [] = refl
  length-sort_latest (e ∷ es) =
      ground (arith, length-insert_latest e (sort_latest es), length-sort_latest es)

  occurrences-sort_latest :
      (id : ℕ) (es : List (UncommittedEntry D))
      → occurrences id (entry_ids (sort_latest es)) ≡ occurrences id (entry_ids es)
  unfolding sort_latest
  occurrences-sort_latest id [] = refl
  occurrences-sort_latest id (e ∷ es) =
      ground (arith, occurrences-insert_latest id e (sort_latest es), occurrences-sort_latest id es)

  insert_latest-All :
      (P : ℕ → Type 0) (e : UncommittedEntry D) (es : List (UncommittedEntry D))
      → P e.id
      → All P (entry_ids es)
      → All P (entry_ids (insert_latest e es))
  unfolding insert_latest
  insert_latest-All P e [] h k = (h, tt)
  insert_latest-All P e (x ∷ xs) h k = elim (Bool-cases (leb x.id e.id)) [
    | inl q ↦ rw q (h, k)
    | inr q ↦ rw q (k.0, insert_latest-All P e xs h k.1)
  ]

  insert_latest-Descending :
      (e : UncommittedEntry D) (es : List (UncommittedEntry D))
      → Descending (entry_ids es)
      → Descending (entry_ids (insert_latest e es))
  unfolding insert_latest
  insert_latest-Descending e [] d = (tt, tt)
  insert_latest-Descending e (x ∷ xs) d = elim (Bool-cases (leb x.id e.id)) [
    | inl q ↦
        let le : x.id ≤ e.id = ground (arith, q) in
        rw q ((le, All-imp (λ y h. omega (arith, le, h)) (entry_ids xs) d.0), d)
    | inr q ↦ rw q (
      insert_latest-All (λ y. y ≤ x.id) e xs (ground (arith, q)) d.0,
      insert_latest-Descending e xs d.1,
    )
  ]

  sort_latest-Descending :
      (es : List (UncommittedEntry D)) → Descending (entry_ids (sort_latest es))
  unfolding sort_latest
  sort_latest-Descending [] = tt
  sort_latest-Descending (e ∷ es) =
      insert_latest-Descending e (sort_latest es) (sort_latest-Descending es)

module _ {W D : Type 0} where
  attempts_id :
      (handler : Handler W D) (e : UncommittedEntry D) (n : ℕ) (last_error : String) (w : W)
      → (attempts handler e n last_error w).1.entry_id ≡ e.id
  unfolding attempts success_of failure_of
  attempts_id handler e zero last_error w = refl
  attempts_id handler e (suc n) last_error w =
      elim (Result-cases (handler e.action_type e.compensation_data w).1) [
        | inl (message, q) ↦ rw (q, attempts) (attempts_id handler e n message _)
        | inr (_, q) ↦ rw (q, attempts) refl
      ]

  compensate_id :
      (no_handler : String → String) (c : Compensator W D) (e : UncommittedEntry D) (w : W)
      → (compensate no_handler c e w).1.entry_id ≡ e.id
  unfolding compensate failure_of
  compensate_id no_handler c e w = elim (Option-cases (Map.get e.action_type c.handlers)) [
    | inl q ↦ rw (q, compensate) refl
    | inr (handler, q) ↦ rw (q, compensate) (attempts_id handler e c.max_retries "" w)
  ]

  compensate_each_ids :
      (no_handler : String → String) (c : Compensator W D) (es : List (UncommittedEntry D)) (w : W)
      → result_ids (compensate_each no_handler c es w).1 ≡ entry_ids es
  unfolding compensate_each
  compensate_each_ids no_handler c [] w = refl
  compensate_each_ids no_handler c (e ∷ es) w =
      rw
        (
          compensate_id no_handler c e w,
          compensate_each_ids no_handler c es (compensate no_handler c e w).0,
        )
        refl

  -- The entries taken one after the other: what becomes of the world of the handlers, and the results.
  abbrev pub world_after : (String → String) → Compensator W D → List (UncommittedEntry D) → W → W
  world_after no_handler c [] w = w
  world_after no_handler c (e ∷ es) w = world_after no_handler c es (compensate no_handler c e w).0

  abbrev pub answers :
      (String → String) → Compensator W D → List (UncommittedEntry D) → W → List CompensationResult
  answers no_handler c [] w = []
  answers no_handler c (e ∷ es) w =
      (compensate no_handler c e w).1 ∷ answers no_handler c es (compensate no_handler c e w).0

  compensate_each-InTurn :
      (no_handler : String → String) (c : Compensator W D) (es : List (UncommittedEntry D)) (w : W)
      → compensate_each no_handler c es w
        ≡ (world_after no_handler c es w, answers no_handler c es w)
  unfolding compensate_each
  compensate_each-InTurn no_handler c [] w = refl
  compensate_each-InTurn no_handler c (e ∷ es) w =
      rw (compensate_each-InTurn no_handler c es (compensate no_handler c e w).0) refl

  pub compensate_all-Descending :
      (no_handler : String → String) (c : Compensator W D) (es : List (UncommittedEntry D)) (w : W)
      → (order : List (UncommittedEntry D)) × Descending (entry_ids order)
        × ((id : ℕ) → occurrences id (entry_ids order) ≡ occurrences id (entry_ids es))
        × (compensate_all no_handler c es w
            ≡ (world_after no_handler c order w, answers no_handler c order w))
        × (result_ids (compensate_all no_handler c es w).1 ≡ entry_ids order)
  unfolding compensate_all
  compensate_all-Descending no_handler c es w = (
    sort_latest es,
    sort_latest-Descending es,
    (λ id. occurrences-sort_latest id es),
    compensate_each-InTurn no_handler c (sort_latest es) w,
    compensate_each_ids no_handler c (sort_latest es) w,
  )

  length-compensate_each :
      (no_handler : String → String) (c : Compensator W D) (es : List (UncommittedEntry D)) (w : W)
      → length (compensate_each no_handler c es w).1 ≡ length es
  unfolding compensate_each
  length-compensate_each no_handler c [] w = refl
  length-compensate_each no_handler c (e ∷ es) w =
      omega (arith, length-compensate_each no_handler c es (compensate no_handler c e w).0)

  pub length-compensate_all :
      (no_handler : String → String) (c : Compensator W D) (es : List (UncommittedEntry D)) (w : W)
      → length (compensate_all no_handler c es w).1 ≡ length es
  unfolding compensate_all
  length-compensate_all no_handler c es w =
      length-compensate_each no_handler c (sort_latest es) w ∙ length-sort_latest es
