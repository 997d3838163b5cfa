-- ===== src/Core/Shutdown/Lasting.antt =====
-- A shutdown that was begun is not undone by further calls.
use project_whitequbit.Base.{
  ◌≤◌, ◌≡◌, refl, ◌∙◌, ap, subst, sym, Bool, true, false, List, [], ◌∷◌, arith, nat_eqb,
  if◌then◌else◌, Bool-cases, inl, inr, number_key, ==_iff,
}
use project_whitequbit.Core.Shutdown.{
  ShutdownPhase, running, stop_accepting, draining, immediate, complete, code_of, phase_of,
  or_running, ShutdownCoordinator, new_coordinator, current_phase, transition_phase,
  initiate_shutdown, request_immediate, begin_draining, mark_complete, returns_at_once, admits,
}

pub data Call : Type 0 where
  initiate request drain finish : Call

abbrev pub call : Call → ShutdownCoordinator → ShutdownCoordinator
call initiate c = (initiate_shutdown c).0
call request c = request_immediate c
call drain c = begin_draining c
call finish c = mark_complete c

abbrev pub calls : List Call → ShutdownCoordinator → ShutdownCoordinator
calls [] c = c
calls (k ∷ ks) c = calls ks (call k c)

-- The phases as a machine of their own: the phase, and whether a shutdown was initiated.
abbrev State : Type 0
State = ShutdownPhase × Bool

abbrev next : Call → State → State
next initiate (p, true) = (p, true)
next initiate (p, false) = (stop_accepting, true)
next request (p, b) = (immediate, true)
next drain (stop_accepting, b) = (draining, b)
next drain (running, b) = (running, b)
next drain (draining, b) = (draining, b)
next drain (immediate, b) = (immediate, b)
next drain (complete, b) = (complete, b)
next finish (p, b) = (complete, b)

abbrev run : List Call → State → State
run [] s = s
run (k ∷ ks) s = run ks (next k s)

-- The coordinator in which the phase, its watch channel and the flag agree with a state.
abbrev in_state : State → ShutdownCoordinator
in_state (p, b) = record { phase = code_of p; initiated = b; watched = p }

read_back : (p : ShutdownPhase) → or_running (phase_of (code_of p)) ≡ p
unfolding phase_of code_of
read_back running = refl
read_back stop_accepting = refl
read_back draining = refl
read_back immediate = refl
read_back complete = refl

-- The watch channel is left alone only when the phase stays the same.
watched_follows : (p q : ShutdownPhase) → (if nat_eqb (code_of q) (code_of p) then q else p) ≡ p
watched_follows p q = elim (Bool-cases (nat_eqb (code_of q) (code_of p))) [
  | inr n ↦ rw n refl
  | inl y ↦ rw y (
      sym (read_back q)
      ∙ ap (λ n. or_running (phase_of n)) ((==_iff (code_of q) (code_of p)).0 y)
      ∙ read_back p)
]

transition_phase-in_state :
    (p q : ShutdownPhase) (b : Bool) → transition_phase p (in_state (q, b)) ≡ in_state (p, b)
unfolding transition_phase
transition_phase-in_state p q b =
    rw (read_back q)
      (ap (λ r. record { phase = code_of p; initiated = b; watched = r }) (watched_follows p q))

call-in_state : (k : Call) (s : State) → call k (in_state s) ≡ in_state (next k s)
unfolding initiate_shutdown request_immediate begin_draining mark_complete
call-in_state initiate (p, true) = refl
call-in_state initiate (p, false) = transition_phase-in_state stop_accepting p true
call-in_state request (p, b) = transition_phase-in_state immediate p true
call-in_state finish (p, b) = transition_phase-in_state complete p b
call-in_state drain (running, b) = refl
call-in_state drain (stop_accepting, b) = refl
call-in_state drain (draining, b) = refl
call-in_state drain (immediate, b) = refl
call-in_state drain (complete, b) = refl

calls-in_state : (ks : List Call) (s : State) → calls ks (in_state s) ≡ in_state (run ks s)
calls-in_state [] s = refl
calls-in_state (k ∷ ks) s = ap (calls ks) (call-in_state k s) ∙ calls-in_state ks (next k s)

-- The states of a begun shutdown.
abbrev Begun : State → Type 0
Begun (p, b) = (b ≡ true) × (1 ≤ code_of p)

next-Begun : (k : Call) (s : State) → Begun s → Begun (next k s)
unfolding code_of
next-Begun initiate (p, true) (q, h) = (q, h)
next-Begun initiate (p, false) (q, h) = ground arith
next-Begun request (p, b) (q, h) = (refl, omega arith)
next-Begun finish (p, b) (q, h) = (q, omega arith)
next-Begun drain (running, b) g = g
next-Begun drain (stop_accepting, b) (q, h) = (q, omega arith)
next-Begun drain (draining, b) g = g
next-Begun drain (immediate, b) g = g
next-Begun drain (complete, b) g = g

run-Begun : (ks : List Call) (s : State) → Begun s → Begun (run ks s)
run-Begun [] s g = g
run-Begun (k ∷ ks) s g = run-Begun ks (next k s) (next-Begun k s g)

-- A call on a begun shutdown that admits no work admits none afterwards.
next_refuses : (k : Call) (s : State) → Begun s → 2 ≤ code_of s.0 → 2 ≤ code_of (next k s).0
unfolding code_of
next_refuses initiate (p, true) g h = h
next_refuses initiate (p, false) (q, g) h = ground arith
next_refuses request (p, b) g h = omega arith
next_refuses finish (p, b) g h = omega arith
next_refuses drain (running, b) g h = h
next_refuses drain (stop_accepting, b) g h = omega arith
next_refuses drain (draining, b) g h = h
next_refuses drain (immediate, b) g h = h
next_refuses drain (complete, b) g h = h

run_refuses : (ks : List Call) (s : State) → Begun s → 2 ≤ code_of s.0 → 2 ≤ code_of (run ks s).0
run_refuses [] s g h = h
run_refuses (k ∷ ks) s g h = run_refuses ks (next k s) (next-Begun k s g) (next_refuses k s g h)

-- What the calls reach from a state in which no shutdown was initiated, or one was begun.
abbrev Reachable : State → Type 0
Reachable (p, b) = b ≡ true → 1 ≤ code_of p

next-Reachable : (k : Call) (s : State) → Reachable s → Reachable (next k s)
unfolding code_of
next-Reachable initiate (p, true) r = r
next-Reachable initiate (p, false) r = λ q. omega arith
next-Reachable request (p, b) r = λ q. omega arith
next-Reachable finish (p, b) r = λ q. omega arith
next-Reachable drain (running, b) r = r
next-Reachable drain (stop_accepting, b) r = λ q. omega arith
next-Reachable drain (draining, b) r = r
next-Reachable drain (immediate, b) r = r
next-Reachable drain (complete, b) r = r

run-Reachable : (ks : List Call) (s : State) → Reachable s → Reachable (run ks s)
run-Reachable [] s r = r
run-Reachable (k ∷ ks) s r = run-Reachable ks (next k s) (next-Reachable k s r)

-- What holds of a coordinator after calls on one whose shutdown is initiated.
abbrev pub Lasts : ShutdownCoordinator → ShutdownCoordinator → Type 0
Lasts c c' =
    (c'.watched ≡ current_phase c')
    × (1 ≤ c'.phase)
    × (returns_at_once c' ≡ true)
    × ((initiate_shutdown c').1 ≡ false)
    × (admits c ≡ false → admits c' ≡ false)

begins_once : (s : State) → s.1 ≡ true → (initiate_shutdown (in_state s)).1 ≡ false
unfolding initiate_shutdown
begins_once (p, true) q = refl
begins_once (p, false) q = ground arith

waits_no_more : (s : State) → s.1 ≡ true → returns_at_once (in_state s) ≡ true
unfolding returns_at_once
waits_no_more (p, true) q = refl
waits_no_more (p, false) q = ground arith

refuses_iff :
    (s : State)
    → (admits (in_state s) ≡ false → 2 ≤ code_of s.0)
      × (2 ≤ code_of s.0 → admits (in_state s) ≡ false)
unfolding admits code_of current_phase phase_of
refuses_iff (running, b) = ground arith
refuses_iff (stop_accepting, b) = ground arith
refuses_iff (draining, b) = ground arith
refuses_iff (immediate, b) = ground arith
refuses_iff (complete, b) = ground arith

Begun-Lasts : (ks : List Call) (s : State) → Begun s → Lasts (in_state s) (in_state (run ks s))
unfolding current_phase
Begun-Lasts ks s g =
    let g' = run-Begun ks s g in
    (
      sym (read_back (run ks s).0),
      g'.1,
      waits_no_more (run ks s) g'.0,
      begins_once (run ks s) g'.0,
      λ r. (refuses_iff (run ks s)).1 (run_refuses ks s g ((refuses_iff s).0 r)),
    )

-- Whatever calls came before and come after, once a shutdown is initiated: the watch channel shows the
-- phase, which never is the running one again, waiting for the shutdown returns at once, no further
-- call is told that it began the shutdown, and once work is refused it stays refused.
pub shutdown-Lasts :
    (before after : List Call)
    → (calls before new_coordinator).initiated ≡ true
    → Lasts (calls before new_coordinator) (calls after (calls before new_coordinator))
unfolding new_coordinator code_of
shutdown-Lasts before after q =
    let s = run before (running, false) in
    let reached = calls-in_state before (running, false) in
    let begun : Begun s =
      let q' = subst (λ c. c.initiated ≡ true) reached q in
      (q', run-Reachable before (running, false) (λ z. ground arith) q') in
    subst (λ c. Lasts c (calls after c)) (sym reached)
      (subst (Lasts (in_state s)) (sym (calls-in_state after s)) (Begun-Lasts after s begun))
