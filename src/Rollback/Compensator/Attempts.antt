-- ===== src/Rollback/Compensator/Attempts.antt =====
-- How often a handler is called, and what its answers lead to.
use project_whitequbit.Base.{
  ℕ, zero, suc, ◌<◌, ◌≡◌, refl, ap, String, true, false, some, Result, ok, err, text_key, arith,
  ◌⊎◌, inl, inr,
}
use project_whitequbit.Base.Map
use project_whitequbit.Rollback.Journal.{UncommittedEntry}
use project_whitequbit.Rollback.Compensator.{
  CompensationResult, success_of, failure_of, Handler, Compensator, attempts, compensate,
}

-- What one call of the handler on an entry answers.
abbrev pub answer :
    {W D : Type 0} → Handler W D → UncommittedEntry D → W → W × Result String (Unit {0})
answer handler e w = handler e.action_type e.compensation_data w

-- A number of calls in a row, each of which fails, from one state to another.
pub data Failing {W D : Type 0} (handler : Handler W D) (e : UncommittedEntry D)
    : ℕ → W → W → Type 0 where
  no_call : {w : W} → Failing handler e 0 w w
  failed_call :
      {n : ℕ} {w w' w'' : W} {message : String}
      → answer handler e w ≡ (w', err message)
      → Failing handler e n w' w''
      → Failing handler e (suc n) w w''

module _ {W D : Type 0} (handler : Handler W D) (e : UncommittedEntry D) where
  -- Fewer failing calls than allowed, then one that succeeds.
  pub record Succeeds (allowed : ℕ) (w w' : W) : Type 0 where
    pub failures : ℕ
    pub before : W
    pub in_bound : failures < allowed
    pub failing : Failing handler e failures w before
    pub succeeding : answer handler e before ≡ (w', ok tt)

  abbrev pub Outcome : ℕ → W → W × CompensationResult → Type 0
  Outcome allowed w (w', r) =
      ((r.success ≡ true) × Succeeds allowed w w')
      ⊎ ((r.success ≡ false) × Failing handler e allowed w w')

  later-Outcome :
      (n : ℕ) (w w1 : W) (message : String) (end : W × CompensationResult)
      → answer handler e w ≡ (w1, err message)
      → Outcome n w1 end
      → Outcome (suc n) w end
  later-Outcome n w w1 message end h (inl (s, t)) = inl (
    s,
    record {
      failures = suc t.failures;
      before = t.before;
      in_bound = omega (arith, t.in_bound);
      failing = failed_call h t.failing;
      succeeding = t.succeeding;
    },
  )
  later-Outcome n w w1 message end h (inr (s, t)) = inr (s, failed_call h t)

  answered :
      (w : W)
      → ((w1 : W) × (message : String) × (answer handler e w ≡ (w1, err message)))
        ⊎ ((w1 : W) × (answer handler e w ≡ (w1, ok tt)))
  answered w = go (answer handler e w) refl
    where
      go :
          (r : W × Result String (Unit {0}))
          → answer handler e w ≡ r
          → ((w1 : W) × (message : String) × (answer handler e w ≡ (w1, err message)))
            ⊎ ((w1 : W) × (answer handler e w ≡ (w1, ok tt)))
      go (w1, err message) q = inl (w1, message, q)
      go (w1, ok _) q = inr (w1, q)

  -- What is left to do after the first call.
  abbrev after : ℕ → W × Result String (Unit {0}) → W × CompensationResult
  after n (w, ok _) = (w, success_of e.id)
  after n (w, err message) = attempts handler e n message w

  attempts-after :
      (n : ℕ) (last_error : String) (w : W) (r : W × Result String (Unit {0}))
      → answer handler e w ≡ r
      → attempts handler e (suc n) last_error w ≡ after n r
  unfolding attempts
  attempts-after n last_error w r q = ap (after n) q

  pub attempts-Outcome :
      (n : ℕ) (last_error : String) (w : W) → Outcome n w (attempts handler e n last_error w)
  attempts-Outcome zero last_error w = unfold attempts failure_of in inr (refl, no_call)
  attempts-Outcome (suc n) last_error w = elim (answered w) [
    | inl (w1, message, q) ↦ rw (attempts-after n last_error w (w1, err message) q) (
        later-Outcome n w w1 message (attempts handler e n message w1) q
          (attempts-Outcome n message w1))
    | inr (w1, q) ↦ rw (attempts-after n last_error w (w1, ok tt) q) (
        unfold success_of in
        inl (
          refl,
          record {
            failures = 0;
            before = w;
            in_bound = omega arith;
            failing = no_call;
            succeeding = q;
          },
        ))
  ]

-- Compensating an entry whose handler is registered succeeds when one of at most `max_retries` calls
-- does, the first one that succeeds being the last call made, and fails when all of exactly
-- `max_retries` calls fail.
pub compensate-Outcome :
    {W D : Type 0} (no_handler : String → String) (c : Compensator W D) (handler : Handler W D)
    (e : UncommittedEntry D) (w : W)
    → Map.get e.action_type c.handlers ≡ some handler
    → Outcome handler e c.max_retries w (compensate no_handler c e w)
unfolding compensate
compensate-Outcome no_handler c handler e w h =
    rw (h, compensate) (attempts-Outcome handler e c.max_retries "" w)
