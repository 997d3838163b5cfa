-- ===== src/Core/Failure.antt =====
-- core/failure.rs: the kill switch, the tracker of actions in flight, and the recovery at startup. `D` is
-- the type of JSON values. A file is what was last written to it, and `healthy` says whether the file
-- system takes writes; a write goes to a temporary file that is renamed, so a refused one leaves the
-- file as it was. `now` is the time of a call. The safe defaults are only logged by the source.
pub mod Config
pub mod Coordinator
pub mod Persistence
pub mod Records
pub mod Startup
pub mod Values
use project_whitequbit.Base.{
  ℕ, ◌+◌, ◌/◌, u64, String, Bool, true, false, Option, none, some, List, [], ◌∷◌, ◌++◌, length,
  is_empty, ltb, not, ◌&&◌, map, text_key, if◌then◌else◌, Result, ok, err,
}
use project_whitequbit.Base.Map
use project_whitequbit.Base.Map.{Map, values}

-- The errors that the modelled code raises.
pub data FailureError : Type 0 where
  io serialization : FailureError

pub record KillSwitchState : Type 0 where
  pub active : Bool
  pub activated_at : Option ℕ
  pub reason : Option String
  pub trigger_failure_id : Option ℕ
  pub defaults_applied : Bool
  pub requires_ack : Bool

unfoldable pub default_state : KillSwitchState
default_state = record {
  active = false;
  activated_at = none;
  reason = none;
  trigger_failure_id = none;
  defaults_applied = false;
  requires_ack = false;
}

-- What reads from the state's file: nothing, text that does not parse, or a state.
pub data StateFile : Type 0 where
  missing garbled : StateFile
  holding : KillSwitchState → StateFile

-- `flag` is the atomic flag beside the state.
pub record KillSwitch : Type 0 where
  pub flag : Bool
  pub state : KillSwitchState
  pub file : StateFile
  pub healthy : Bool

unfoldable pub new_switch : StateFile → Bool → KillSwitch
unfolding default_state
new_switch file healthy = record {
  flag = false;
  state = default_state;
  file = file;
  healthy = healthy;
}

unfoldable pub load_state : KillSwitch → KillSwitch × Result FailureError Bool
load_state k = elim k.file [
  | missing ↦ (k, ok false)
  | garbled ↦ (k, err serialization)
  | holding persisted ↦
      if persisted.active
      then (record k { flag = true; state = persisted }, ok true)
      else (k, ok false)
]

unfoldable pub persist_state : KillSwitch → KillSwitch × Result FailureError (Unit {0})
persist_state k = if k.healthy then (record k { file = holding k.state }, ok tt) else (k, err io)

unfoldable pub is_active : KillSwitch → Bool
is_active k = k.flag

-- `apply_safe_defaults`, which logs and succeeds, stands between the two writes.
unfoldable pub activate : String → ℕ → ℕ → KillSwitch → KillSwitch × Result FailureError (Unit {0})
unfolding persist_state
activate reason failure_id now k =
    let raised = record k {
      flag = true;
      state = record k.state {
        active = true;
        activated_at = some now;
        reason = some reason;
        trigger_failure_id = some failure_id;
        requires_ack = true;
      };
    } in
    let (k', r) = persist_state raised in
    elim r [
      | err e ↦ (k', err e)
      | ok _ ↦ persist_state (record k' { state = record k'.state { defaults_applied = true } })
    ]

unfoldable pub deactivate : KillSwitch → KillSwitch × Result FailureError (Unit {0})
unfolding persist_state
deactivate k =
    persist_state
      (record k { flag = false; state = record k.state { active = false; requires_ack = false } })

pub data ActionPhase : Type 0 where
  preparing logged executing verifying committed rolling_back rolled_back failed : ActionPhase

pub record InFlightAction (D : Type 0) : Type 0 where
  pub action_id : String
  pub action_type : String
  pub started_at : ℕ
  pub phase : ActionPhase
  pub pre_state : Option D
  pub post_state : Option D
  pub compensation_data : Option D

pub data Line (D : Type 0) : Type 0 where
  blank unreadable : Line D
  tracked : InFlightAction D → Line D

-- `readable` says whether the file, if it is there, can be opened and read to its end.
pub record InFlightTracker (D : Type 0) : Type 0 where
  pub actions : Map String (InFlightAction D)
  pub lines : List (Line D)
  pub healthy : Bool
  pub readable : Bool

module _ {D : Type 0} where
  -- The actions of the lines that parse.
  unfoldable pub read_actions : List (Line D) → List (InFlightAction D)
  read_actions [] = []
  read_actions (tracked a ∷ lines) = a ∷ read_actions lines
  read_actions (_ ∷ lines) = read_actions lines

  unfoldable pub insert_actions :
      List (InFlightAction D) → Map String (InFlightAction D) → Map String (InFlightAction D)
  insert_actions [] m = m
  insert_actions (a ∷ rest) m = insert_actions rest (Map.insert a.action_id a m)

  -- Memory changes only when the whole file could be read.
  unfoldable pub load :
      InFlightTracker D → InFlightTracker D × Result FailureError (List (InFlightAction D))
  unfolding read_actions insert_actions
  load t =
      let actions = read_actions t.lines in
      if t.readable
      then (record t { actions = insert_actions actions t.actions }, ok actions)
      else (t, err io)

  unfoldable pub persist : InFlightTracker D → InFlightTracker D × Result FailureError (Unit {0})
  persist t =
      if t.healthy
      then (record t { lines = map tracked (values t.actions) }, ok tt)
      else (t, err io)

  unfoldable pub register :
      String → String → ℕ → InFlightTracker D → InFlightTracker D × Result FailureError (Unit {0})
  unfolding persist
  register action_id action_type now t =
      let action : InFlightAction D = record {
        action_id = action_id;
        action_type = action_type;
        started_at = now;
        phase = preparing;
        pre_state = none;
        post_state = none;
        compensation_data = none;
      } in
      persist (record t { actions = Map.insert action_id action t.actions })

  -- `get_mut` and a change of the action, if it is tracked.
  abbrev pub change :
      (InFlightAction D → InFlightAction D)
      → String
      → Map String (InFlightAction D)
      → Map String (InFlightAction D)
  change f action_id m = elim (Map.get action_id m) [
    | none ↦ m
    | some a ↦ Map.insert action_id (f a) m
  ]

  unfoldable pub update_phase :
      String → ActionPhase → InFlightTracker D → InFlightTracker D × Result FailureError (Unit {0})
  unfolding persist
  update_phase action_id phase t =
      persist (record t { actions = change (λ a. record a { phase = phase }) action_id t.actions })

  unfoldable pub set_pre_state :
      String → D → InFlightTracker D → InFlightTracker D × Result FailureError (Unit {0})
  unfolding persist
  set_pre_state action_id state t =
      persist (record t {
        actions = change (λ a. record a { pre_state = some state }) action_id t.actions;
      })

  unfoldable pub set_compensation_data :
      String → D → InFlightTracker D → InFlightTracker D × Result FailureError (Unit {0})
  unfolding persist
  set_compensation_data action_id undo t = persist (record t {
    actions = change (λ a. record a { compensation_data = some undo }) action_id t.actions;
  })

  unfoldable pub complete :
      String → InFlightTracker D → InFlightTracker D × Result FailureError (Unit {0})
  unfolding persist
  complete action_id t = persist (record t { actions = Map.remove action_id t.actions })

  unfoldable pub has_in_flight : InFlightTracker D → Bool
  has_in_flight t = not (is_empty t.actions)

  -- `recover_action`: a step that fails ends it.
  abbrev pub finish :
      String
      → InFlightTracker D × Result FailureError (Unit {0})
      → InFlightTracker D × Result FailureError Bool
  finish action_id (t, err e) = (t, err e)
  finish action_id (t, ok _) =
      let (t', r) = complete action_id t in elim r [ err e ↦ (t', err e) | ok _ ↦ (t', ok true) ]

  abbrev pub give_up :
      InFlightTracker D × Result FailureError (Unit {0})
      → InFlightTracker D × Result FailureError Bool
  give_up (t, err e) = (t, err e)
  give_up (t, ok _) = (t, ok false)

  abbrev pub undo :
      InFlightAction D → InFlightTracker D → InFlightTracker D × Result FailureError Bool
  undo a t = elim a.compensation_data [
    | some _ ↦ finish a.action_id (update_phase a.action_id rolled_back t)
    | none ↦ elim a.pre_state [
      | some _ ↦ finish a.action_id (update_phase a.action_id rolled_back t)
      | none ↦ give_up (update_phase a.action_id failed t)
    ]
  ]

  unfoldable pub recover_action :
      InFlightAction D → InFlightTracker D → InFlightTracker D × Result FailureError Bool
  recover_action a t = elim a.phase [
    | preparing ↦ finish a.action_id (t, ok tt)
    | logged ↦ finish a.action_id (t, ok tt)
    | executing ↦ undo a t
    | verifying ↦ undo a t
    | committed ↦ finish a.action_id (t, ok tt)
    | rolling_back ↦ give_up (update_phase a.action_id failed t)
    | rolled_back ↦ finish a.action_id (t, ok tt)
    | failed ↦ (t, ok false)
  ]

  -- The loop of `startup_recovery`: the numbers of actions recovered and failed.
  unfoldable pub recover_each :
      List (InFlightAction D) → InFlightTracker D × ℕ × ℕ → InFlightTracker D × ℕ × ℕ
  recover_each [] s = s
  recover_each (a ∷ rest) (t, recovered, failures) =
      let (t', r) = recover_action a t in
      elim r [
        | ok true ↦ recover_each rest (t', recovered + 1, failures)
        | ok false ↦ recover_each rest (t', recovered, failures + 1)
        | err e ↦ recover_each rest (t', recovered, failures + 1)
      ]
