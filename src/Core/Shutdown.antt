-- ===== src/Core/Shutdown.antt =====
-- core/shutdown.rs: the phases of a shutdown. Each call is one step, though begin_draining reads the phase and
-- writes it in two. `watched` is the value of the watch channel.
pub mod Lasting
use project_whitequbit.Base.{
  ℕ, Bool, true, false, Option, none, some, nat_eqb, leb, ltb, not, ◌||◌, if◌then◌else◌,
}

pub data ShutdownPhase : Type 0 where
  running stop_accepting draining immediate complete : ShutdownPhase

-- `phase as u8`
unfoldable pub code_of : ShutdownPhase → ℕ
code_of running = 0
code_of stop_accepting = 1
code_of draining = 2
code_of immediate = 3
code_of complete = 4

-- `ShutdownPhase::try_from`
unfoldable pub phase_of : ℕ → Option ShutdownPhase
phase_of n =
    if nat_eqb n 0
    then some running
    else if nat_eqb n 1
    then some stop_accepting
    else if nat_eqb n 2
    then some draining
    else if nat_eqb n 3
    then some immediate
    else if nat_eqb n 4
    then some complete
    else none

pub record ShutdownCoordinator : Type 0 where
  pub phase : ℕ
  pub initiated : Bool
  pub watched : ShutdownPhase

unfoldable pub new_coordinator : ShutdownCoordinator
unfolding code_of
new_coordinator = record { phase = code_of running; initiated = false; watched = running }

unfoldable pub is_shutdown_initiated : ShutdownCoordinator → Bool
is_shutdown_initiated c = c.initiated

-- `unwrap_or(ShutdownPhase::Running)`
abbrev pub or_running : Option ShutdownPhase → ShutdownPhase
or_running none = running
or_running (some p) = p

unfoldable pub current_phase : ShutdownCoordinator → ShutdownPhase
unfolding phase_of
current_phase c = or_running (phase_of c.phase)

unfoldable pub transition_phase : ShutdownPhase → ShutdownCoordinator → ShutdownCoordinator
unfolding code_of phase_of
transition_phase p c = record c {
  phase = code_of p;
  watched = if nat_eqb (code_of (or_running (phase_of c.phase))) (code_of p) then c.watched else p;
}

-- With the answer whether this call began the shutdown.
unfoldable pub initiate_shutdown : ShutdownCoordinator → ShutdownCoordinator × Bool
unfolding transition_phase
initiate_shutdown c =
    if c.initiated
    then (c, false)
    else (transition_phase stop_accepting (record c { initiated = true }), true)

unfoldable pub request_immediate : ShutdownCoordinator → ShutdownCoordinator
unfolding transition_phase
request_immediate c = transition_phase immediate (record c { initiated = true })

unfoldable pub begin_draining : ShutdownCoordinator → ShutdownCoordinator
unfolding transition_phase current_phase
begin_draining c =
    if nat_eqb (code_of (current_phase c)) (code_of stop_accepting)
    then transition_phase draining c
    else c

unfoldable pub mark_complete : ShutdownCoordinator → ShutdownCoordinator
unfolding transition_phase
mark_complete c = transition_phase complete c

-- Whether `wait_for_shutdown` returns without waiting.
unfoldable pub returns_at_once : ShutdownCoordinator → Bool
unfolding code_of
returns_at_once c = c.initiated || not (nat_eqb (code_of c.watched) (code_of running))

-- The test in the loop of `wait_for_phase`.
unfoldable pub has_reached : ShutdownPhase → ShutdownCoordinator → Bool
unfolding code_of
has_reached target c =
    nat_eqb (code_of c.watched) (code_of target) || ltb (code_of target) (code_of c.watched)

-- Whether `InFlightGuard::new` gives a guard.
unfoldable pub admits : ShutdownCoordinator → Bool
unfolding current_phase code_of
admits c = not (leb (code_of draining) (code_of (current_phase c)))
