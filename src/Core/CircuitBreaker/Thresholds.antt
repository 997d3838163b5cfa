-- ===== src/Core/CircuitBreaker/Thresholds.antt =====
-- When the breaker opens, how long it refuses, and when it closes again.
use project_whitequbit.Base.{
  length, ℕ, ◌+◌, ◌-◌, ◌<◌, ◌≡◌, refl, Bool, false, some, List, [], ◌∷◌, leb, if◌then◌else◌, u64,
  u64_mod, arith, Bool-cases, inl, inr, All,
}
use project_whitequbit.Core.CircuitBreaker.{
  closed, opened, half_open, CircuitBreaker, transition_to, allow_request, record_success,
  record_failure, has_waited,
}

-- Failures one after the other, and successes, at one time each.
abbrev pub failures : List ℕ → CircuitBreaker → CircuitBreaker
failures [] b = b
failures (now ∷ times) b = failures times (record_failure now b)

abbrev pub successes : List ℕ → CircuitBreaker → CircuitBreaker
successes [] b = b
successes (now ∷ times) b = successes times (record_success now b)

failure_opened :
    (now : ℕ) (b : CircuitBreaker) → b.state ≡ opened → (record_failure now b).state ≡ opened
unfolding record_failure
failure_opened now b h = ground (arith, h)

failures_opened :
    (times : List ℕ) (b : CircuitBreaker) → b.state ≡ opened → (failures times b).state ≡ opened
failures_opened [] b h = h
failures_opened (now ∷ times) b h =
    failures_opened times (record_failure now b) (failure_opened now b h)

-- A failure of a closed breaker.
failure_closed :
    (now : ℕ) (b : CircuitBreaker)
    → b.state ≡ closed
    → let b' = record_failure now b in
      (b'.failure_threshold ≡ b.failure_threshold)
      × (b'.failure_count ≡ u64 (b.failure_count + 1))
      × (b'.state
          ≡ (if leb b.failure_threshold (u64 (b.failure_count + 1)) then opened else closed))
unfolding record_failure transition_to
failure_closed now b h = (ground (arith, h), ground (arith, h), ground (arith, h))

failures_count :
    (times : List ℕ) (b : CircuitBreaker)
    → b.state ≡ closed
    → b.failure_count < b.failure_threshold
    → b.failure_threshold < u64_mod
    → (failures times b).state
      ≡ (if leb b.failure_threshold (b.failure_count + length times) then opened else closed)
failures_count [] b h lt room = ground (arith, h, lt)
failures_count (now ∷ times) b h lt room =
    let b' = record_failure now b in
    let (same, count, state) = failure_closed now b h in
    elim (Bool-cases (leb b.failure_threshold (u64 (b.failure_count + 1)))) [
      | inl q ↦
          let up : b'.state ≡ opened = ground (arith, state, q) in
          ground (arith, failures_opened times b' up, q, room, lt)
      | inr q ↦
          let still : b'.state ≡ closed = ground (arith, state, q) in
          let rest =
            failures_count times b' still (ground (arith, count, same, q))
              (omega (arith, same, room)) in
          ground (arith, rest, same, count, q, room, lt)
    ]

-- Failures in a row open a closed breaker that has counted none exactly when there are as many as
-- its threshold, which is at least one and fits in 64 bits.
pub failures_open :
    (times : List ℕ) (b : CircuitBreaker)
    → b.state ≡ closed
    → b.failure_count ≡ 0
    → 0 < b.failure_threshold
    → b.failure_threshold < u64_mod
    → (failures times b).state ≡ (if leb b.failure_threshold (length times) then opened else closed)
failures_open times b h none_yet positive room =
    ground (arith, failures_count times b h, none_yet, positive, room)

success_half_open :
    (now : ℕ) (b : CircuitBreaker)
    → b.state ≡ half_open
    → let b' = record_success now b in
      (b'.success_threshold ≡ b.success_threshold)
      × (b'.state
          ≡ (if leb b.success_threshold (u64 (b.success_count + 1)) then closed else half_open))
      × (b'.success_count ≡ (
          if leb b.success_threshold (u64 (b.success_count + 1))
          then 0
          else u64 (b.success_count + 1)))
unfolding record_success transition_to
success_half_open now b h = (ground (arith, h), ground (arith, h), ground (arith, h))

success_closed :
    (now : ℕ) (b : CircuitBreaker) → b.state ≡ closed → (record_success now b).state ≡ closed
unfolding record_success
success_closed now b h = ground (arith, h)

successes_closed :
    (times : List ℕ) (b : CircuitBreaker) → b.state ≡ closed → (successes times b).state ≡ closed
successes_closed [] b h = h
successes_closed (now ∷ times) b h =
    successes_closed times (record_success now b) (success_closed now b h)

-- Successes in a row close a half-open breaker exactly when, with those counted before, which are too
-- few, there are as many as its threshold, which fits in 64 bits.
pub successes_close :
    (times : List ℕ) (b : CircuitBreaker)
    → b.state ≡ half_open
    → b.success_count < b.success_threshold
    → b.success_threshold < u64_mod
    → (successes times b).state
      ≡ (if leb b.success_threshold (b.success_count + length times) then closed else half_open)
successes_close [] b h lt room = ground (arith, h, lt)
successes_close (now ∷ times) b h lt room =
    let b' = record_success now b in
    let (same, state, count) = success_half_open now b h in
    elim (Bool-cases (leb b.success_threshold (u64 (b.success_count + 1)))) [
      | inl q ↦
          let shut : b'.state ≡ closed = ground (arith, state, q) in
          ground (arith, successes_closed times b' shut, q, room, lt)
      | inr q ↦
          let still : b'.state ≡ half_open = ground (arith, state, q) in
          let counted : b'.success_count ≡ u64 (b.success_count + 1) = ground (arith, count, q) in
          let rest =
            successes_close times b' still (ground (arith, counted, same, q))
              (omega (arith, same, room)) in
          ground (arith, rest, same, counted, q, room, lt)
    ]

-- A call of the breaker.
pub data Call : Type 0 where
  request success failure : Call

-- The breaker after a call at a time, and whether a request was let through.
abbrev pub call : Call → ℕ → CircuitBreaker → CircuitBreaker × Bool
call request now b = allow_request now b
call success now b = (record_success now b, false)
call failure now b = (record_failure now b, false)

abbrev pub let_through : List (Call × ℕ) → CircuitBreaker → ℕ
let_through [] b = 0
let_through ((c, now) ∷ cs) b =
    let (b', granted) = call c now b in (if granted then 1 else 0) + let_through cs b'

refuses :
    (c : Call) (now since : ℕ) (b : CircuitBreaker)
    → b.state ≡ opened
    → b.opened_at ≡ some since
    → now - since < b.reset_timeout
    → let (b', granted) = call c now b in
      (granted ≡ false)
      × (b'.state ≡ opened)
      × (b'.opened_at ≡ some since)
      × (b'.reset_timeout ≡ b.reset_timeout)
unfolding allow_request record_success record_failure
refuses request now since b h at early =
    let waits : has_waited now b.reset_timeout b.opened_at ≡ false =
      rw at (ground (arith, early)) in
    (
      ground (arith, h, waits),
      ground (arith, h, waits),
      ground (arith, h, waits, at),
      ground (arith, h, waits),
    )
refuses success now since b h at early =
    (refl, ground (arith, h), ground (arith, h, at), ground (arith, h))
refuses failure now since b h at early =
    (refl, ground (arith, h), ground (arith, h, at), ground (arith, h))

-- An open breaker lets no request through while less than its reset time has elapsed, whatever calls are made
-- until then.
pub opened_refuses :
    (cs : List (Call × ℕ)) (since : ℕ) (b : CircuitBreaker)
    → b.state ≡ opened
    → b.opened_at ≡ some since
    → All (λ c. c.1 - since < b.reset_timeout) cs
    → let_through cs b ≡ 0
opened_refuses [] since b h at early = refl
opened_refuses ((c, now) ∷ cs) since b h at early =
    let (refused, still, same_time, same_reset) = refuses c now since b h at early.0 in
    let rest = opened_refuses cs since (call c now b).0 still same_time (rw same_reset early.1) in
    rw refused (omega (arith, rest))
