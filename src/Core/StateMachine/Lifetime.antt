-- ===== src/Core/StateMachine/Lifetime.antt =====
-- Where the agent's state can go over a life of the machine.
use project_whitequbit.Base.{
  ◌≡◌, ◌≤◌, refl, true, false, List, [], ◌∷◌, ok, arith, Bool-cases, inl, inr,
}
use project_whitequbit.Core.StateMachine.{
  AgentState, init, recovering, ready, draining, stopped, state_code, StateMachine, current,
  is_valid_transition, transition_to, is_shutting_down, begin_shutdown, is_accepting_events,
  state_from,
}

-- The machine whose cell holds a state's byte.
abbrev pub machine_at : AgentState → StateMachine
machine_at s = record { state = state_code s }

current-machine_at : (s : AgentState) → current (machine_at s) ≡ s
unfolding current state_code state_from
current-machine_at init = refl
current-machine_at recovering = refl
current-machine_at ready = refl
current-machine_at draining = refl
current-machine_at stopped = refl

valid_ascends : (s t : AgentState) → is_valid_transition s t ≡ true → state_code s ≤ state_code t
unfolding is_valid_transition state_code
valid_ascends init t h = omega arith
valid_ascends recovering init h = ground arith
valid_ascends recovering recovering h = ground arith
valid_ascends recovering ready h = omega arith
valid_ascends recovering draining h = ground arith
valid_ascends recovering stopped h = omega arith
valid_ascends ready init h = ground arith
valid_ascends ready recovering h = ground arith
valid_ascends ready ready h = ground arith
valid_ascends ready draining h = omega arith
valid_ascends ready stopped h = omega arith
valid_ascends draining init h = ground arith
valid_ascends draining recovering h = ground arith
valid_ascends draining ready h = ground arith
valid_ascends draining draining h = ground arith
valid_ascends draining stopped h = omega arith
valid_ascends stopped init h = ground arith
valid_ascends stopped recovering h = ground arith
valid_ascends stopped ready h = ground arith
valid_ascends stopped draining h = ground arith
valid_ascends stopped stopped h = omega arith

-- A call of the machine.
pub data Call : Type 0 where
  request : AgentState → Call
  shut : Call

abbrev pub call : Call → StateMachine → StateMachine
call (request s) sm = (transition_to s sm).0
call shut sm = (begin_shutdown sm).0

abbrev pub calls : List Call → StateMachine → StateMachine
calls [] sm = sm
calls (c ∷ cs) sm = calls cs (call c sm)

abbrev Lands : AgentState → StateMachine → Type 0
Lands s sm = (t : AgentState) × (sm ≡ machine_at t) × (state_code s ≤ state_code t)

request-Lands : (s t : AgentState) → Lands s (transition_to t (machine_at s)).0
unfolding transition_to
request-Lands s t = elim (Bool-cases (is_valid_transition s t)) [
  | inl q ↦ rw (current-machine_at s, q) (t, refl, valid_ascends s t q)
  | inr q ↦ rw (current-machine_at s, q) (s, refl, omega arith)
]

shut-Lands : (s : AgentState) → Lands s (begin_shutdown (machine_at s)).0
unfolding begin_shutdown current state_from state_code
shut-Lands init = request-Lands init stopped
shut-Lands recovering = request-Lands recovering stopped
shut-Lands ready = request-Lands ready draining
shut-Lands draining = (draining, refl, omega arith)
shut-Lands stopped = (stopped, refl, omega arith)

call-Lands : (c : Call) (s : AgentState) → Lands s (call c (machine_at s))
call-Lands (request t) s = request-Lands s t
call-Lands shut s = shut-Lands s

calls-Lands : (cs : List Call) (s : AgentState) → Lands s (calls cs (machine_at s))
calls-Lands [] s = (s, refl, omega arith)
calls-Lands (c ∷ cs) s =
    let (t, q, le) = call-Lands c s in
    let (u, p, further) = calls-Lands cs t in rw q (u, p, omega (arith, le, further))

-- Whatever is called in whatever order, the state never goes back to an earlier one.
pub calls_ascend :
    (cs : List Call) (s : AgentState)
    → state_code s ≤ state_code (current (calls cs (machine_at s)))
calls_ascend cs s = let (t, q, le) = calls-Lands cs s in rw (q, current-machine_at t) le

late_is_ending :
    (s : AgentState)
    → 3 ≤ state_code s
    → (is_shutting_down (machine_at s) ≡ true) × (is_accepting_events (machine_at s) ≡ false)
unfolding is_shutting_down is_accepting_events current state_from state_code
late_is_ending init h = absurd (omega (arith, h))
late_is_ending recovering h = absurd (omega (arith, h))
late_is_ending ready h = absurd (omega (arith, h))
late_is_ending draining h = (refl, refl)
late_is_ending stopped h = (refl, refl)

shut-Late :
    (s : AgentState)
    → (t : AgentState) × ((begin_shutdown (machine_at s)).0 ≡ machine_at t) × (3 ≤ state_code t)
unfolding begin_shutdown transition_to is_valid_transition current state_from state_code
shut-Late init = (stopped, refl, omega arith)
shut-Late recovering = (stopped, refl, omega arith)
shut-Late ready = (draining, refl, omega arith)
shut-Late draining = (draining, refl, omega arith)
shut-Late stopped = (stopped, refl, omega arith)

begin_shutdown-ok : (s : AgentState) → (begin_shutdown (machine_at s)).1 ≡ ok tt
unfolding begin_shutdown transition_to is_valid_transition current state_from state_code
begin_shutdown-ok init = refl
begin_shutdown-ok recovering = refl
begin_shutdown-ok ready = refl
begin_shutdown-ok draining = refl
begin_shutdown-ok stopped = refl

-- Beginning a shutdown succeeds in every state, and from then on, whatever is called, the agent is
-- shutting down and takes no event.
pub begin_shutdown_lasts :
    (cs : List Call) (s : AgentState)
    → ((begin_shutdown (machine_at s)).1 ≡ ok tt)
      × (is_shutting_down (calls (shut ∷ cs) (machine_at s)) ≡ true)
      × (is_accepting_events (calls (shut ∷ cs) (machine_at s)) ≡ false)
begin_shutdown_lasts cs s =
    let (t, q, late) = shut-Late s in
    let (u, p, le) = calls-Lands cs t in
    let (ending, deaf) = late_is_ending u (omega (arith, late, le)) in
    rw (q, p) (begin_shutdown-ok s, ending, deaf)
