-- ===== src/Rollback/Firewall/Engine/Versions.antt =====
-- Registering does not advance the counter of versions, so that all rules get one version.
use project_whitequbit.Base.{
  ℕ, zero, suc, ◌≤◌, ◌≡◌, refl, ap, sym, subst, ◌∙◌, String, Option, none, some, List, [], ◌∷◌, ◌+◌,
  ok, length, length-keep-le, reverse, arith, inl, inr, ◌⊎◌, text_key, number_key,
}
use project_whitequbit.Base.Hash.{Hashing}
use project_whitequbit.Base.Map
use project_whitequbit.Base.Sorted.{put_at}
use project_whitequbit.Ttl.Entry.{RuleId}
use project_whitequbit.Rollback.Firewall.Record.{
  FirewallRuleRecord, needs_rollback, new_rule_record,
}
use project_whitequbit.Rollback.Firewall.Registry.{
  RuleRegistry, version_ids, take, records_of, get_last_n, register_record,
}
use project_whitequbit.Rollback.Firewall.Log.{last_n, rule_created}
use project_whitequbit.Rollback.Firewall.Engine.{
  RollbackEngine, note, resolve_scope, register_rule, and_then-keeps,
}

-- A call of `register_rule`, with its time.
pub record Registration (S : Type 0) : Type 0 where
  pub rule_id : RuleId
  pub action_id : String
  pub journal_entry_id : ℕ
  pub spec : S
  pub now : ℕ

-- The index by version is empty, or holds one rule under the version that comes next.
abbrev pub OneVersion : {S : Type 0} → RuleRegistry S → Type 0
OneVersion g = (g.by_version ≡ []) ⊎ ((id : RuleId) × (g.by_version ≡ (g.next_version, id) ∷ []))

put_at-same : (n : ℕ) (id j : RuleId) → put_at n id ((n, j) ∷ []) ≡ (n, id) ∷ []
unfolding put_at
put_at-same n id j = ground arith

at_most_one : (n : ℕ) (ids : List RuleId) → length ids ≤ 1 → length (take n ids) ≤ 1
at_most_one zero ids h = omega arith
at_most_one (suc n) [] h = omega arith
at_most_one (suc zero) (id ∷ []) h = omega arith
at_most_one (suc (suc n)) (id ∷ []) h = omega arith
at_most_one (suc n) (id ∷ j ∷ ids) h = ground (arith, h)

module _ {S : Type 0} where
  with_or_without :
      (o : Option (FirewallRuleRecord S)) (rest : List (FirewallRuleRecord S))
      → length (elim o as (λ _. List (FirewallRuleRecord S)) [ none ↦ rest | some r ↦ r ∷ rest ])
        ≤ 1 + length rest
  with_or_without none rest = omega arith
  with_or_without (some r) rest = omega arith

  length-records_of-le :
      (g : RuleRegistry S) (ids : List RuleId) → length (records_of g ids) ≤ length ids
  unfolding records_of
  length-records_of-le g [] = omega arith
  length-records_of-le g (id ∷ ids) = omega (
    arith,
    with_or_without (Map.get id g.by_rule_id) (records_of g ids),
    length-records_of-le g ids,
  )

  -- The last rules of an index are no more than it has.
  last_n_among :
      (n : ℕ) (g : RuleRegistry S)
      → length (resolve_scope (last_n n) g) ≤ length (take n (reverse (version_ids g.by_version)))
  unfolding resolve_scope get_last_n
  last_n_among n g = omega (
    arith,
    length-keep-le needs_rollback (get_last_n n g),
    length-records_of-le g (take n (reverse (version_ids g.by_version))),
  )

  last_n_few : (n : ℕ) (g : RuleRegistry S) → OneVersion g → length (resolve_scope (last_n n) g) ≤ 1
  last_n_few n g (inl q) =
      let few = at_most_one n [] (omega arith) in
      omega (
        arith,
        last_n_among n g,
        subst (λ m. length (take n (reverse (version_ids m))) ≤ 1) (sym q) few,
      )
  last_n_few n g (inr (id, q)) =
      let few = at_most_one n (id ∷ []) (omega arith) in
      omega (
        arith,
        last_n_among n g,
        subst (λ m. length (take n (reverse (version_ids m))) ≤ 1) (sym q) few,
      )

  register_record-OneVersion :
      (r : FirewallRuleRecord S) (g : RuleRegistry S)
      → r.version ≡ g.next_version
      → OneVersion g
      → OneVersion (register_record r g)
  unfolding register_record
  register_record-OneVersion r g same (inl q) =
      inr (r.rule_id, rw (q, put_at) (ap (λ n. (n, r.rule_id) ∷ []) same))
  register_record-OneVersion r g same (inr (id, q)) = inr (
    r.rule_id,
    ap (put_at r.version r.rule_id) q
        ∙ ap (λ n. put_at n r.rule_id ((g.next_version, id) ∷ [])) same
        ∙ put_at-same g.next_version r.rule_id id,
  )

module _ {S F : Type 0} (hashing : Hashing S) (ttl_of : S → Option ℕ) where
  abbrev pub register_all : List (Registration S) → RollbackEngine S F → RollbackEngine S F
  register_all [] e = e
  register_all (q ∷ qs) e =
      register_all qs
        (register_rule hashing ttl_of q.rule_id q.action_id q.journal_entry_id q.spec q.now e).0

  register_rule-OneVersion :
      (q : Registration S) (e : RollbackEngine S F)
      → OneVersion e.registry
      → OneVersion
          (register_rule hashing ttl_of q.rule_id q.action_id q.journal_entry_id q.spec q.now
            e).0.registry
  unfolding register_rule
  register_rule-OneVersion q e one =
      let r =
        new_rule_record hashing ttl_of q.rule_id q.action_id q.journal_entry_id q.spec
          e.registry.next_version q.now in
      let kept =
        and_then-keeps
          (λ e'. OneVersion e'.registry × (e'.registry.next_version ≡ e.registry.next_version))
          (note (rule_created r) q.now e)
          (λ _ e'. (record e' { registry = register_record r e'.registry }, ok tt)) (one, refl)
          (λ _ s (p, same). (register_record-OneVersion r s.registry (sym same) p, same)) in
      kept.0

  register_all-OneVersion :
      (qs : List (Registration S)) (e : RollbackEngine S F)
      → OneVersion e.registry
      → OneVersion (register_all qs e).registry
  register_all-OneVersion [] e one = one
  register_all-OneVersion (q ∷ qs) e one =
      register_all-OneVersion qs _ (register_rule-OneVersion q e one)

  -- However many rules are registered from an empty registry, a rollback of the last rules finds at
  -- most one of them, whatever number is asked for.
  pub registered_last_n :
      (qs : List (Registration S)) (n : ℕ) (e : RollbackEngine S F)
      → e.registry.by_version ≡ []
      → length (resolve_scope (last_n n) (register_all qs e).registry) ≤ 1
  registered_last_n qs n e fresh =
      last_n_few n (register_all qs e).registry (register_all-OneVersion qs e (inl fresh))
