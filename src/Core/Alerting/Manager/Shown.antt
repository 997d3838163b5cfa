-- ===== src/Core/Alerting/Manager/Shown.antt =====
-- A raised alert is seen in the status.
use project_whitequbit.Base.{
  ℕ, zero, suc, ◌-◌, ◌≤◌, ◌<◌, ◌≡◌, refl, ap, sym, subst, ◌∙◌, Bool, true, false, List, [], ◌∷◌,
  ◌++◌, Result, ok, err, length, length-append, keep, keep-append, not, if◌then◌else◌, arith,
  String,
}
use project_whitequbit.Core.Failure.{FailureError}
use project_whitequbit.Core.Alerting.Alert.{Alert}
use project_whitequbit.Core.Alerting.Manager.{
  HealthStatus, critical, degraded, AlertManager, pop_front, persist_alert, identified, raise_alert,
  unacknowledged, unacked_count, health_of, Situation, generate_status,
}

length-pop_front : (n : ℕ) (xs : List Alert) → length (pop_front n xs) ≡ length xs - n
length-pop_front zero xs = omega arith
length-pop_front (suc n) [] = omega arith
length-pop_front (suc n) (x ∷ xs) = length-pop_front n xs ∙ omega arith

pop_front-last :
    (n : ℕ) (xs : List Alert) (a : Alert)
    → n ≤ length xs
    → pop_front n (xs ++ a ∷ []) ≡ pop_front n xs ++ a ∷ []
pop_front-last zero xs a h = refl
pop_front-last (suc n) [] a h = ground (arith, h)
pop_front-last (suc n) (x ∷ xs) a h = pop_front-last n xs a (omega (arith, h))

-- The alerts of a manager after one more, with the number that it gets.
abbrev numbered : Alert → AlertManager → Alert
numbered alert m = record alert { alert_id = m.next_id }

abbrev alerts_after : Alert → AlertManager → List Alert
alerts_after alert m =
    pop_front (length (m.alerts ++ numbered alert m ∷ []) - m.max_alerts)
      (m.alerts ++ numbered alert m ∷ [])

either_alerts :
    {A : Type 0} (b : Bool) (x y : AlertManager × A) (xs : List Alert)
    → x.0.alerts ≡ xs
    → y.0.alerts ≡ xs
    → (if b then x else y).0.alerts ≡ xs
either_alerts true x y xs p q = p
either_alerts false x y xs p q = q

identified_alerts :
    (id : ℕ) (x : AlertManager × Result FailureError (Unit {0}))
    → (identified id x).0.alerts ≡ x.0.alerts
identified_alerts id (m, err e) = refl
identified_alerts id (m, ok _) = refl

raised_alerts :
    (alert : Alert) (m : AlertManager) → (raise_alert alert m).0.alerts ≡ alerts_after alert m
unfolding raise_alert persist_alert
raised_alerts alert m =
    identified_alerts m.next_id _
    ∙ either_alerts m.takes_writes _ _ (alerts_after alert m) refl refl

-- The new alert is the last one.
alerts_after-last :
    (alert : Alert) (m : AlertManager)
    → 1 ≤ m.max_alerts
    → alerts_after alert m
      ≡ pop_front (length (m.alerts ++ numbered alert m ∷ []) - m.max_alerts) m.alerts
        ++ numbered alert m ∷ []
alerts_after-last alert m some_kept =
    pop_front-last _ m.alerts (numbered alert m)
      (omega (arith, length-append m.alerts (numbered alert m ∷ []), some_kept))

one_unacked :
    (xs : List Alert) (a : Alert)
    → a.acknowledged ≡ false
    → 0 < length (keep (λ b. not b.acknowledged) (xs ++ a ∷ []))
one_unacked xs a q =
    let last : length (keep (λ b. not b.acknowledged) (a ∷ [])) ≡ 1 = rw q refl in
    omega (
      arith,
      ap length (keep-append (λ b. not b.acknowledged) xs (a ∷ [])),
      length-append (keep (λ b. not b.acknowledged) xs) (keep (λ b. not b.acknowledged) (a ∷ [])),
      last,
    )

not_healthy :
    (active : Bool) (unacked failures : ℕ)
    → 0 < unacked
    → health_of active unacked failures ≡ (if active then critical else degraded)
unfolding health_of
not_healthy active unacked failures h = ground arith

-- Raising an alert that nobody acknowledged, whether or not its file takes it and however many are kept,
-- if any: the status shows the agent as degraded, or critical if the kill switch is active, and no more
-- alerts are kept than are allowed.
pub raise_alert-shown :
    (describe : HealthStatus → ℕ → Situation → String) (alert : Alert) (m : AlertManager)
    (now uptime : ℕ) (x : Situation)
    → alert.acknowledged ≡ false
    → 1 ≤ m.max_alerts
    → let m' = (raise_alert alert m).0 in
      ((generate_status describe now uptime x m').health
        ≡ (if x.kill_switch.active then critical else degraded))
      × (length m'.alerts ≤ m.max_alerts)
unfolding generate_status unacked_count unacknowledged
raise_alert-shown describe alert m now uptime x q some_kept =
    let all = raised_alerts alert m ∙ alerts_after-last alert m some_kept in
    let few =
      ap length (raised_alerts alert m) ∙ length-pop_front _ (m.alerts ++ numbered alert m ∷ []) in
    (
      not_healthy x.kill_switch.active _ x.recent_failures (
          subst (λ xs. 0 < length (keep (λ b. not b.acknowledged) xs)) (sym all)
            (one_unacked
              (pop_front (length (m.alerts ++ numbered alert m ∷ []) - m.max_alerts) m.alerts)
              (numbered alert m) q)),
      omega (arith, few),
    )
