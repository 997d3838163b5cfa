-- ===== src/Core/StateMachine.antt =====
-- core/state_machine.rs: the agent's states and the transitions between them.
pub mod Lifetime
use project_whitequbit.Base.{
  ℕ, Bool, true, false, Option, none, some, Result, ok, err, if◌then◌else◌, nat_eqb,
}

pub data AgentState : Type 0 where
  init recovering ready draining stopped : AgentState

-- `AgentState as u8`
unfoldable pub state_code : AgentState → ℕ
state_code init = 0
state_code recovering = 1
state_code ready = 2
state_code draining = 3
state_code stopped = 4

-- `AgentState::try_from`
unfoldable pub state_from : ℕ → Option AgentState
state_from n =
    if nat_eqb n 0
    then some init
    else if nat_eqb n 1
    then some recovering
    else if nat_eqb n 2
    then some ready
    else if nat_eqb n 3
    then some draining
    else if nat_eqb n 4
    then some stopped
    else none

-- The cell holds a byte.
pub record StateMachine : Type 0 where
  pub state : ℕ

pub data CoreError : Type 0 where
  invalid_transition : AgentState → AgentState → CoreError

unfoldable pub new_machine : StateMachine
unfolding state_code
new_machine = record { state = state_code init }

abbrev or_init : Option AgentState → AgentState
or_init none = init
or_init (some s) = s

unfoldable pub current : StateMachine → AgentState
current sm = or_init (state_from sm.state)

unfoldable pub is_valid_transition : AgentState → AgentState → Bool
is_valid_transition init recovering = true
is_valid_transition recovering ready = true
is_valid_transition ready draining = true
is_valid_transition init ready = true
is_valid_transition _ stopped = true
is_valid_transition _ _ = false

-- The state is read, checked and then stored: two steps of the source, one here.
unfoldable pub transition_to :
    AgentState → StateMachine → StateMachine × Result CoreError (Unit {0})
transition_to new_state sm =
    if is_valid_transition (current sm) new_state
    then (record { state = state_code new_state }, ok tt)
    else (sm, err (invalid_transition (current sm) new_state))

abbrev is_ready : AgentState → Bool
is_ready ready = true
is_ready _ = false

abbrev is_ending : AgentState → Bool
is_ending draining = true
is_ending stopped = true
is_ending _ = false

unfoldable pub is_accepting_events : StateMachine → Bool
is_accepting_events sm = is_ready (current sm)

unfoldable pub is_shutting_down : StateMachine → Bool
is_shutting_down sm = is_ending (current sm)

unfoldable pub begin_shutdown : StateMachine → StateMachine × Result CoreError (Unit {0})
unfolding transition_to
begin_shutdown sm = elim (current sm) [
  | ready ↦ transition_to draining sm
  | draining ↦ (sm, ok tt)
  | stopped ↦ (sm, ok tt)
  | init ↦ transition_to stopped sm
  | recovering ↦ transition_to stopped sm
]
