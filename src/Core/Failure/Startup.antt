-- ===== src/Core/Failure/Startup.antt =====
-- What the recovery at startup does with the actions that a crash left in flight.
use project_whitequbit.Base.{
  ◌≡◌, refl, subst, String, Bool, true, false, Option, none, some, not, is_some, text_key, ◌||◌,
  ◌==◌, ==_iff, if◌then◌else◌, Result, ok, arith, Bool-cases, inl, inr,
}
use project_whitequbit.Base.Map
use project_whitequbit.Base.Map.{Map, values, get-insert, get-remove, get-insert_self}
use project_whitequbit.Core.Failure.{
  FailureError, ActionPhase, preparing, logged, executing, verifying, committed, rolling_back,
  rolled_back, failed, InFlightAction, InFlightTracker, persist, change, update_phase, complete,
  finish, give_up, recover_action,
}

module _ {D : Type 0} where
  -- Whether an action is left for an operator: its rollback was under way, it failed already, or it
  -- was executed and nothing is known to undo it with.
  abbrev pub needs_operator : InFlightAction D → Bool
  needs_operator a = elim a.phase [
    | preparing ↦ false
    | logged ↦ false
    | executing ↦ not (is_some a.compensation_data || is_some a.pre_state)
    | verifying ↦ not (is_some a.compensation_data || is_some a.pre_state)
    | committed ↦ false
    | rolling_back ↦ true
    | rolled_back ↦ false
    | failed ↦ true
  ]

  -- The action is gone, and the others are as they were.
  abbrev IsGone : String → InFlightTracker D → InFlightTracker D × Result FailureError Bool → Type 0
  IsGone id t (t', r) =
      (r ≡ ok true)
      × ((other : String)
          → Map.get other t'.actions ≡ (if id == other then none else Map.get other t.actions))

  -- The action is there as failed, and the others are as they were.
  abbrev IsLeft :
      InFlightAction D → InFlightTracker D → InFlightTracker D × Result FailureError Bool → Type 0
  IsLeft a t (t', r) =
      (r ≡ ok false)
      × ((other : String)
          → Map.get other t'.actions ≡ (
              if a.action_id == other
              then some (record a { phase = failed })
              else Map.get other t.actions))

  finish-IsGone :
      (id : String) (t : InFlightTracker D) → t.healthy ≡ true → IsGone id t (finish id (t, ok tt))
  unfolding complete persist
  finish-IsGone id t well = rw (well, persist) (refl, λ other. get-remove id other t.actions)

  get-change :
      (f : InFlightAction D → InFlightAction D) (id other : String) (a : InFlightAction D)
      (m : Map String (InFlightAction D))
      → Map.get id m ≡ some a
      → Map.get other (change f id m) ≡ (if id == other then some (f a) else Map.get other m)
  get-change f id other a m q = rw (q, change) (get-insert id other (f a) m)

  later-IsGone :
      (a : InFlightAction D) (t : InFlightTracker D)
      → t.healthy ≡ true
      → Map.get a.action_id t.actions ≡ some a
      → IsGone a.action_id t (finish a.action_id (update_phase a.action_id rolled_back t))
  unfolding update_phase complete persist
  later-IsGone a t well q =
      rw (well, persist)
        (
          refl,
          λ other. ground (
            arith,
            get-remove a.action_id other
                (change (λ x. record x { phase = rolled_back }) a.action_id t.actions),
            get-change (λ x. record x { phase = rolled_back }) a.action_id other a t.actions q,
          ),
        )

  give_up-IsLeft :
      (a : InFlightAction D) (t : InFlightTracker D)
      → t.healthy ≡ true
      → Map.get a.action_id t.actions ≡ some a
      → IsLeft a t (give_up (update_phase a.action_id failed t))
  unfolding update_phase persist
  give_up-IsLeft a t well q =
      rw (well, persist)
        (
          refl,
          λ other. get-change (λ x. record x { phase = failed }) a.action_id other a t.actions q,
        )

  -- The answer, and what is tracked then.
  abbrev Settles : InFlightAction D → InFlightTracker D → Type 0
  Settles a t =
      ((recover_action a t).1 ≡ ok (not (needs_operator a)))
      × ((other : String)
          → Map.get other (recover_action a t).0.actions ≡ (
              if a.action_id == other
              then (if needs_operator a then some (record a { phase = failed }) else none)
              else Map.get other t.actions))

  by_phase :
      (phase : ActionPhase) (c s : Option D) (b : InFlightAction D) (t : InFlightTracker D)
      → let a = record b { phase = phase; compensation_data = c; pre_state = s } in
        t.healthy ≡ true → Map.get a.action_id t.actions ≡ some a → Settles a t
  unfolding recover_action
  by_phase preparing c s b t well q = finish-IsGone b.action_id t well
  by_phase logged c s b t well q = finish-IsGone b.action_id t well
  by_phase executing (some c) s b t well q = later-IsGone _ t well q
  by_phase executing none (some s) b t well q = later-IsGone _ t well q
  by_phase executing none none b t well q = give_up-IsLeft _ t well q
  by_phase verifying (some c) s b t well q = later-IsGone _ t well q
  by_phase verifying none (some s) b t well q = later-IsGone _ t well q
  by_phase verifying none none b t well q = give_up-IsLeft _ t well q
  by_phase committed c s b t well q = finish-IsGone b.action_id t well
  by_phase rolling_back c s b t well q = give_up-IsLeft _ t well q
  by_phase rolled_back c s b t well q = finish-IsGone b.action_id t well
  by_phase failed c s b t well q = (refl, λ other. unchanged b.action_id other t.actions _ q)
    where
      unchanged :
          (id other : String) (m : Map String (InFlightAction D)) (a : InFlightAction D)
          → Map.get id m ≡ some a
          → Map.get other m ≡ (if id == other then some a else Map.get other m)
      unchanged id other m a found = elim (Bool-cases (id == other)) [
        | inr q ↦ rw q refl
        | inl q ↦ rw q (subst (λ k. Map.get k m ≡ some a) ((==_iff id other).0 q) found)
      ]

  -- On a file system that takes writes, recovering a tracked action answers whether it needs no
  -- operator. Then it is no longer tracked; else it is tracked as failed. No other action changes.
  pub recover_action_settles :
      (a : InFlightAction D) (t : InFlightTracker D)
      → t.healthy ≡ true
      → Map.get a.action_id t.actions ≡ some a
      → ((recover_action a t).1 ≡ ok (not (needs_operator a)))
        × ((other : String)
            → Map.get other (recover_action a t).0.actions ≡ (
                if a.action_id == other
                then (if needs_operator a then some (record a { phase = failed }) else none)
                else Map.get other t.actions))
  recover_action_settles a t well q = by_phase a.phase a.compensation_data a.pre_state a t well q
