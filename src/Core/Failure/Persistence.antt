-- ===== src/Core/Failure/Persistence.antt =====
-- What the files of the kill switch and of the tracker bring back after a restart.
use project_whitequbit.Base.{
  ℕ, ◌≡◌, refl, ap, ◌∙◌, String, Bool, true, false, some, List, [], ◌∷◌, map, text_key, arith,
  Option-cases, inl, inr,
}
use project_whitequbit.Base.Map
use project_whitequbit.Base.Map.{Map, values, Unique, insert-Unique, remove-Unique}
use project_whitequbit.Base.Map.Collect.{
  OwnKeys, insert-OwnKeys, remove-OwnKeys, get-OwnKeys, collect, get-collect,
}
use project_whitequbit.Core.Failure.{
  StateFile, missing, garbled, holding, KillSwitch, new_switch, load_state, persist_state,
  is_active, activate, deactivate, ActionPhase, InFlightAction, tracked, InFlightTracker,
  read_actions, insert_actions, load, persist, register, change, update_phase, set_pre_state,
  set_compensation_data, complete,
}

-- An order to the kill switch.
pub data Order : Type 0 where
  activating : String → ℕ → ℕ → Order
  deactivating : Order

abbrev pub obey : Order → KillSwitch → KillSwitch
obey (activating reason failure_id now) k = (activate reason failure_id now k).0
obey deactivating k = (deactivate k).0

abbrev pub obey_all : List Order → KillSwitch → KillSwitch
obey_all [] k = k
obey_all (o ∷ os) k = obey_all os (obey o k)

abbrev pub active_in : StateFile → Bool
active_in missing = false
active_in garbled = false
active_in (holding s) = s.active

-- The flag is the state's, and the file's.
abbrev pub Agrees : KillSwitch → Type 0
Agrees k = (k.healthy ≡ true) × (k.flag ≡ k.state.active) × (active_in k.file ≡ k.flag)

obey-Agrees : (o : Order) (k : KillSwitch) → Agrees k → Agrees (obey o k)
unfolding activate deactivate persist_state
obey-Agrees (activating reason failure_id now) k (well, f, a) =
    rw (well, persist_state) (refl, refl, refl)
obey-Agrees deactivating k (well, f, a) = rw (well, persist_state) (refl, refl, refl)

obey_all-Agrees : (os : List Order) (k : KillSwitch) → Agrees k → Agrees (obey_all os k)
obey_all-Agrees [] k h = h
obey_all-Agrees (o ∷ os) k h = obey_all-Agrees os (obey o k) (obey-Agrees o k h)

restored :
    (file : StateFile) (well : Bool)
    → is_active (load_state (new_switch file well)).0 ≡ active_in file
unfolding is_active load_state new_switch
restored missing well = refl
restored garbled well = refl
restored (holding s) well = ground arith

-- On a file system that takes writes, from a kill switch that agrees with its file, a restart after any
-- orders restores the kill switch as active exactly when it was.
pub obey_all_restored :
    (os : List Order) (k : KillSwitch)
    → Agrees k
    → is_active (load_state (new_switch (obey_all os k).file true)).0 ≡ is_active (obey_all os k)
unfolding is_active
obey_all_restored os k h = restored (obey_all os k).file true ∙ (obey_all-Agrees os k h).2

-- An operation of the tracker.
pub data Operation (D : Type 0) : Type 0 where
  registering : String → String → ℕ → Operation D
  phasing : String → ActionPhase → Operation D
  keeping_state : String → D → Operation D
  keeping_data : String → D → Operation D
  completing : String → Operation D

module _ {D : Type 0} where
  abbrev pub perform : Operation D → InFlightTracker D → InFlightTracker D
  perform (registering id kind now) t = (register id kind now t).0
  perform (phasing id phase) t = (update_phase id phase t).0
  perform (keeping_state id state) t = (set_pre_state id state t).0
  perform (keeping_data id undo) t = (set_compensation_data id undo t).0
  perform (completing id) t = (complete id t).0

  abbrev pub own_id : InFlightAction D → String
  own_id a = a.action_id

  abbrev pub WellKept : Map String (InFlightAction D) → Type 0
  WellKept m = Unique m × OwnKeys own_id m

  -- The tracker after a restart.
  abbrev pub restart : InFlightTracker D → InFlightTracker D
  restart t = (load (record t { actions = [] })).0

  read-tracked : (xs : List (InFlightAction D)) → read_actions (map tracked xs) ≡ xs
  unfolding read_actions
  read-tracked [] = refl
  read-tracked (x ∷ xs) = ap (λ l. x ∷ l) (read-tracked xs)

  insert_actions-collect :
      (xs : List (InFlightAction D)) (m : Map String (InFlightAction D))
      → insert_actions xs m ≡ collect own_id xs m
  unfolding insert_actions collect
  insert_actions-collect [] m = refl
  insert_actions-collect (x ∷ xs) m = insert_actions-collect xs (Map.insert x.action_id x m)

  -- The file brings the actions back, key by key.
  abbrev pub IsRestored : InFlightTracker D → Type 0
  IsRestored t = (id : String) → Map.get id (restart t).actions ≡ Map.get id t.actions

  abbrev IsKept : InFlightTracker D → Type 0
  IsKept t = ((t.healthy ≡ true) × (t.readable ≡ true)) × WellKept t.actions

  persist_keeps :
      (t : InFlightTracker D) → IsKept t → IsKept (persist t).0 × IsRestored (persist t).0
  unfolding persist load
  persist_keeps t ((well, reads), (u, o)) =
      rw (well, reads, persist)
        (
          ((refl, refl), (u, o)),
          λ id.
              rw (read-tracked (values t.actions), insert_actions-collect (values t.actions) [])
                (get-collect own_id id t.actions u o),
        )

  change-WellKept :
      (f : InFlightAction D → InFlightAction D) (id : String) (m : Map String (InFlightAction D))
      → ((a : InFlightAction D) → (f a).action_id ≡ a.action_id)
      → WellKept m
      → WellKept (change f id m)
  change-WellKept f id m same (u, o) = elim (Option-cases (Map.get id m)) [
    | inl q ↦ rw (q, change) (u, o)
    | inr (a, q) ↦
        rw (q, change)
          (
            insert-Unique id (f a) m u,
            insert-OwnKeys own_id id (f a) m (same a ∙ get-OwnKeys own_id id a m o q) o,
          )
  ]

  perform_keeps :
      (op : Operation D) (t : InFlightTracker D)
      → IsKept t
      → IsKept (perform op t) × IsRestored (perform op t)
  unfolding register update_phase set_pre_state set_compensation_data complete
  perform_keeps (registering id kind now) t (well, (u, o)) =
      persist_keeps _
        (well, (insert-Unique id _ t.actions u, insert-OwnKeys own_id id _ t.actions refl o))
  perform_keeps (phasing id phase) t (well, k) =
      persist_keeps _
        (well, change-WellKept (λ a. record a { phase = phase }) id t.actions (λ a. refl) k)
  perform_keeps (keeping_state id state) t (well, k) =
      persist_keeps _ (
        well,
        change-WellKept (λ a. record a { pre_state = some state }) id t.actions (λ a. refl) k,
      )
  perform_keeps (keeping_data id undo) t (well, k) = persist_keeps _ (
    well,
    change-WellKept (λ a. record a { compensation_data = some undo }) id t.actions (λ a. refl) k,
  )
  perform_keeps (completing id) t (well, (u, o)) =
      persist_keeps _ (well, (remove-Unique id t.actions u, remove-OwnKeys own_id id t.actions o))

  abbrev pub perform_all : List (Operation D) → InFlightTracker D → InFlightTracker D
  perform_all [] t = t
  perform_all (op ∷ ops) t = perform_all ops (perform op t)

  -- On a file system that takes writes and gives the file back, a restart after any operations brings back exactly the actions
  -- that the tracker holds, from a tracker whose file does so already.
  pub perform_all-IsRestored :
      (ops : List (Operation D)) (t : InFlightTracker D)
      → t.healthy ≡ true
      → t.readable ≡ true
      → Unique t.actions
      → OwnKeys own_id t.actions
      → IsRestored t
      → IsRestored (perform_all ops t)
  perform_all-IsRestored [] t well reads u o r = r
  perform_all-IsRestored (op ∷ ops) t well reads u o r =
      let (((well', reads'), (u', o')), r') = perform_keeps op t ((well, reads), (u, o)) in
      perform_all-IsRestored ops (perform op t) well' reads' u' o' r'
