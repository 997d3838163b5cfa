-- ===== src/Security/Policy/Precedence.antt =====
-- Which rule decides.
use project_whitequbit.Base.{
  ℕ, ◌≤◌, ◌≡◌, refl, ap, ◌∙◌, String, true, Option, none, some, List, [], ◌∷◌, leb, if◌then◌else◌,
  arith, Bool-cases, inl, inr, All, All-imp,
}
use project_whitequbit.Security.Auth.{ClientAuth}
use project_whitequbit.Security.Policy.{
  PolicyRule, Policy, matches, insert_rule, sort_rules, first_match, decided, evaluate,
}

-- Of two rules the one of the greater priority, the earlier one if they are equal.
abbrev pub stronger : PolicyRule → Option PolicyRule → PolicyRule
stronger rule none = rule
stronger rule (some other) = if leb other.priority rule.priority then rule else other

-- The matching rule of the greatest priority, the earliest of those, found without sorting.
abbrev pub strongest : String → ClientAuth → List PolicyRule → Option PolicyRule
strongest action_type client [] = none
strongest action_type client (rule ∷ rules) =
    let later = strongest action_type client rules in
    if matches action_type client rule then some (stronger rule later) else later

abbrev Sorted : List PolicyRule → Type 0
Sorted [] = Unit
Sorted (r ∷ rs) = All (λ s. s.priority ≤ r.priority) rs × Sorted rs

insert_rule-All :
    (n : ℕ) (rule : PolicyRule) (rs : List PolicyRule)
    → rule.priority ≤ n
    → All (λ s. s.priority ≤ n) rs
    → All (λ s. s.priority ≤ n) (insert_rule rule rs)
unfolding insert_rule
insert_rule-All n rule [] le h = (le, tt)
insert_rule-All n rule (r ∷ rs) le h = elim (Bool-cases (leb r.priority rule.priority)) [
  | inl q ↦ rw q (le, h)
  | inr q ↦ rw q (h.0, insert_rule-All n rule rs le h.1)
]

insert_rule-Sorted :
    (rule : PolicyRule) (rs : List PolicyRule) → Sorted rs → Sorted (insert_rule rule rs)
unfolding insert_rule
insert_rule-Sorted rule [] h = (tt, tt)
insert_rule-Sorted rule (r ∷ rs) h = elim (Bool-cases (leb r.priority rule.priority)) [
  | inl q ↦
      let le : r.priority ≤ rule.priority = ground (arith, q) in
      rw q ((le, All-imp (λ s k. omega (arith, le, k)) rs h.0), h)
  | inr q ↦
      rw q
        (insert_rule-All r.priority rule rs (ground (arith, q)) h.0, insert_rule-Sorted rule rs h.1)
]

sort_rules-Sorted : (rs : List PolicyRule) → Sorted (sort_rules rs)
unfolding sort_rules
sort_rules-Sorted [] = tt
sort_rules-Sorted (r ∷ rs) = insert_rule-Sorted r (sort_rules rs) (sort_rules-Sorted rs)

module _ (action_type : String) (client : ClientAuth) where
  -- A rule found among weaker ones is weaker.
  stronger_than_weaker :
      (rule : PolicyRule) (rs : List PolicyRule)
      → All (λ s. s.priority ≤ rule.priority) rs
      → stronger rule (first_match action_type client rs) ≡ rule
  unfolding first_match
  stronger_than_weaker rule [] h = refl
  stronger_than_weaker rule (r ∷ rs) h = elim (Bool-cases (matches action_type client r)) [
    | inl q ↦ let le : leb r.priority rule.priority ≡ true = ground (arith, h.0) in rw (q, le) refl
    | inr q ↦ rw q (stronger_than_weaker rule rs h.1)
  ]

  first_match-insert_rule :
      (rule : PolicyRule) (rs : List PolicyRule)
      → Sorted rs
      → first_match action_type client (insert_rule rule rs) ≡ (
          if matches action_type client rule
          then some (stronger rule (first_match action_type client rs))
          else first_match action_type client rs)
  unfolding insert_rule first_match
  first_match-insert_rule rule [] h = refl
  first_match-insert_rule rule (r ∷ rs) h = elim (Bool-cases (leb r.priority rule.priority)) [
    | inl q ↦
        let weaker : All (λ s. s.priority ≤ rule.priority) (r ∷ rs) =
          (ground (arith, q), All-imp (λ s k. ground (arith, q, k)) rs h.0) in
        rw (q, stronger_than_weaker rule (r ∷ rs) weaker) refl
    | inr q ↦ elim (Bool-cases (matches action_type client r)) [
      | inl m ↦ rw (q, m, first_match) (ground arith)
      | inr m ↦ rw (q, m, first_match) (first_match-insert_rule rule rs h.1)
    ]
  ]

  first_match-sort_rules :
      (rs : List PolicyRule)
      → first_match action_type client (sort_rules rs) ≡ strongest action_type client rs
  unfolding sort_rules
  first_match-sort_rules [] = unfold first_match in refl
  first_match-sort_rules (r ∷ rs) =
      first_match-insert_rule r (sort_rules rs) (sort_rules-Sorted rs)
      ∙ ap (λ o. if matches action_type client r then some (stronger r o) else o)
          (first_match-sort_rules rs)

-- A policy decides as the matching rule of the greatest priority does, the earliest of those in the
-- policy, and as its default when no rule matches.
pub evaluate-strongest :
    (policy : Policy) (action_type : String) (client : ClientAuth)
    → evaluate policy action_type client
      ≡ decided (strongest action_type client policy.rules) policy.default_decision
unfolding evaluate
evaluate-strongest policy action_type client =
    ap (λ o. decided o policy.default_decision)
      (first_match-sort_rules action_type client policy.rules)
