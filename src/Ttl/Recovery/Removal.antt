-- ===== src/Ttl/Recovery/Removal.antt =====
-- A restarted TTL engine removes no rule from the firewall: `recover` processes the entries that it
-- has not registered, and an entry that is not registered is not removed.
use project_whitequbit.Base.{
  ℕ, ◌≡◌, refl, sym, subst, ◌∙◌, false, none, List, [], ◌∷◌, ◌++◌, leb, Result, ok, err, ◌>>=◌,
  ok-injective, length, text_key, ◌==◌, ==_iff, arith, Bool-cases, inl, inr, All, All-append,
  All-imp,
}
use project_whitequbit.Base.Map
use project_whitequbit.Base.Map.{Map, values, get-insert}
use project_whitequbit.Ttl.Entry
use project_whitequbit.Ttl.Entry.{
  RuleId, TtlError, FirewallError, TtlState, active, expiring, expired, cancelled, failed, TtlEntry,
}
use project_whitequbit.Ttl.Registry.{
  TtlRegistry, empty_registry, mark, mark_expiring, register, mark_expired,
}
use project_whitequbit.Ttl.Persister
use project_whitequbit.Ttl.Persister.{replay}
use project_whitequbit.Ttl.Persister.Keys.{lists, Distinct, replay-WellKeyed, values-Distinct}
use project_whitequbit.Ttl.Engine.{TtlEngine, reschedule_timer}
use project_whitequbit.Ttl.Expiry.{process_single_expiration, process_all}
use project_whitequbit.Ttl.Recovery.{
  Sorting, sort_entry, sort_entries, start_sorting, after_sorting, after_load, recover,
}

abbrev Absent : TtlRegistry → TtlEntry → Type 0
Absent r e = Map.get e.rule_id r.by_rule_id ≡ none

mark_expiring_absent :
    (r : TtlRegistry) (id : RuleId)
    → Map.get id r.by_rule_id ≡ none
    → mark_expiring r id ≡ (r, err (Entry.rule_not_found id))
unfolding mark_expiring
mark_expiring_absent r id q = rw (q, mark)

mark_expired_absent :
    (r : TtlRegistry) (id : RuleId) → Map.get id r.by_rule_id ≡ none → (mark_expired r id).0 ≡ r
unfolding mark_expired
mark_expired_absent r id q = rw (q, mark_expired)

module _ {W : Type 0} (remove_rule : RuleId → W → W × Result FirewallError (Unit {0})) where
  -- Processing an entry that is not registered leaves the firewall and the registry as they were.
  process-Absent :
      (eng : TtlEngine W) (e : TtlEntry) (now : ℕ)
      → Absent eng.registry e
      → let after = (process_single_expiration remove_rule eng e now).0 in
        (after.firewall ≡ eng.firewall) × (after.registry ≡ eng.registry)
  unfolding process_single_expiration
  process-Absent eng e now q = ground (
    arith,
    mark_expiring_absent eng.registry e.rule_id q,
    mark_expired_absent eng.registry e.rule_id q,
  )

  process_all-Absent :
      (eng : TtlEngine W) (es : List TtlEntry) (now n : ℕ)
      → All (Absent eng.registry) es
      → (process_all remove_rule eng es now n).0.firewall ≡ eng.firewall
  unfolding process_all
  process_all-Absent eng [] now n h = refl
  process_all-Absent eng (e ∷ es) now n h =
      let (fw, reg) = process-Absent eng e now h.0 in
      let eng' = (process_single_expiration remove_rule eng e now).0 in
      process_all-Absent eng' es now _ (subst (λ r. All (Absent r) es) (sym reg) h.1) ∙ fw

-- A Queued entry is not registered, and no later entry is of its rule.
abbrev Queued : TtlRegistry → List TtlEntry → TtlEntry → Type 0
Queued r rest e = (Absent r e) × (lists e.rule_id rest ≡ false)

record Clean {W : Type 0} (w : W) (rest : List TtlEntry) (s : Sorting W) : Type 0 where
  untouched : s.engine.firewall ≡ w
  expired_queued : All (Queued s.engine.registry rest) s.expired_rules
  failed_queued : All (Queued s.engine.registry rest) s.failed_rules
  unregistered : All (Absent s.engine.registry) rest

lists_cons :
    (id : RuleId) (e : TtlEntry) (rest : List TtlEntry)
    → lists id (e ∷ rest) ≡ false
    → (lists id rest ≡ false) × ((e.rule_id == id) ≡ false)
lists_cons id e rest h = ground arith

not_listed :
    (id : RuleId) (rest : List TtlEntry)
    → lists id rest ≡ false
    → All (λ e. (e.rule_id == id) ≡ false) rest
not_listed id [] h = tt
not_listed id (e ∷ rest) h =
    let (later, here) = lists_cons id e rest h in (here, not_listed id rest later)

-- Registering an entry of another rule.
Absent-register :
    (r : TtlRegistry) (e x : TtlEntry)
    → (e.rule_id == x.rule_id) ≡ false
    → Absent r x
    → Absent (register r e).0 x
unfolding register
Absent-register r e x ne h = ground (arith, get-insert e.rule_id x.rule_id e r.by_rule_id)

Queued-register :
    (r : TtlRegistry) (e : TtlEntry) (rest : List TtlEntry) (x : TtlEntry)
    → Queued r (e ∷ rest) x
    → Queued (register r e).0 rest x
Queued-register r e rest x h =
    let (later, here) = lists_cons x.rule_id e rest h.1 in (Absent-register r e x here h.0, later)

Queued-later :
    (r : TtlRegistry) (e : TtlEntry) (rest : List TtlEntry) (x : TtlEntry)
    → Queued r (e ∷ rest) x
    → Queued r rest x
Queued-later r e rest x h = (h.0, (lists_cons x.rule_id e rest h.1).0)

Absent-register_later :
    (r : TtlRegistry) (e : TtlEntry) (rest : List TtlEntry)
    → lists e.rule_id rest ≡ false
    → All (Absent r) rest
    → All (Absent (register r e).0) rest
Absent-register_later r e [] h a = tt
Absent-register_later r e (x ∷ rest) h a =
    let (later, here) = lists_cons e.rule_id x rest h in
    (
      Absent-register r e x (ground (arith, ==_iff x.rule_id e.rule_id, ==_iff e.rule_id x.rule_id))
          a.0,
      Absent-register_later r e rest later a.1,
    )

Absent-All : (r : TtlRegistry) (xs : List TtlEntry) → All (Queued r []) xs → All (Absent r) xs
Absent-All r xs h = All-imp {P = Queued r []} {Q = Absent r} (λ x k. k.0) xs h

later-All :
    (r : TtlRegistry) (e : TtlEntry) (rest xs : List TtlEntry)
    → All (Queued r (e ∷ rest)) xs
    → All (Queued r rest) xs
later-All r e rest xs h =
    All-imp {P = Queued r (e ∷ rest)} {Q = Queued r rest} (Queued-later r e rest) xs h

register-All :
    (r : TtlRegistry) (e : TtlEntry) (rest xs : List TtlEntry)
    → All (Queued r (e ∷ rest)) xs
    → All (Queued (register r e).0 rest) xs
register-All r e rest xs h =
    All-imp {P = Queued r (e ∷ rest)} {Q = Queued (register r e).0 rest} (Queued-register r e rest)
      xs h

-- The firewall is untouched, and after a loop without errors the queues are of unregistered rules.
record Swept {W : Type 0} (w : W) (p : Sorting W × Result TtlError (Unit {0})) : Type 0 where
  untouched : p.0.engine.firewall ≡ w
  ready : p.1 ≡ ok tt → Clean w [] p.0

module _ {W : Type 0} (w : W) (now : ℕ) where
  -- A step that leaves the firewall, the registry and the queues as they were.
  unchanged-Clean :
      (s t : Sorting W) (e : TtlEntry) (rest : List TtlEntry)
      → t.engine.firewall ≡ s.engine.firewall
      → t.engine.registry ≡ s.engine.registry
      → t.expired_rules ≡ s.expired_rules
      → t.failed_rules ≡ s.failed_rules
      → Clean w (e ∷ rest) s
      → Clean w rest t
  unchanged-Clean s t e rest fw reg ex fl c = record {
    untouched = fw ∙ c.untouched;
    expired_queued =
        rw (reg, ex) (later-All s.engine.registry e rest s.expired_rules c.expired_queued);
    failed_queued =
        rw (reg, fl) (later-All s.engine.registry e rest s.failed_rules c.failed_queued);
    unregistered = rw reg c.unregistered.1;
  }

  stale-Clean :
      (s : Sorting W) (e : TtlEntry) (rest : List TtlEntry)
      → Clean w (e ∷ rest) s
      → Clean w rest (sort_entry expired s e now).0
  unfolding sort_entry
  stale-Clean s e rest c =
      unchanged-Clean s (sort_entry expired s e now).0 e rest (ground arith) (ground arith)
        (ground arith) (ground arith) c

  interrupted-Clean :
      (s : Sorting W) (e : TtlEntry) (rest : List TtlEntry)
      → lists e.rule_id rest ≡ false
      → Clean w (e ∷ rest) s
      → Clean w rest (sort_entry failed s e now).0
  unfolding sort_entry
  interrupted-Clean s e rest d c = record {
    untouched = c.untouched;
    expired_queued = later-All s.engine.registry e rest s.expired_rules c.expired_queued;
    failed_queued =
        All-append (Queued s.engine.registry rest) s.failed_rules (e ∷ [])
          (later-All s.engine.registry e rest s.failed_rules c.failed_queued)
          ((c.unregistered.0, d), tt);
    unregistered = c.unregistered.1;
  }

  sort_entry-Clean :
      (st : TtlState) (s : Sorting W) (e : TtlEntry) (rest : List TtlEntry)
      → lists e.rule_id rest ≡ false
      → Clean w (e ∷ rest) s
      → Clean w rest (sort_entry st s e now).0
  unfolding sort_entry
  sort_entry-Clean active s e rest d c = elim (Bool-cases (leb e.expires_at_ms now)) [
    | inl late ↦ rw late (record {
      untouched = c.untouched;
      expired_queued =
          All-append (Queued s.engine.registry rest) s.expired_rules (e ∷ [])
            (later-All s.engine.registry e rest s.expired_rules c.expired_queued)
            ((c.unregistered.0, d), tt);
      failed_queued = later-All s.engine.registry e rest s.failed_rules c.failed_queued;
      unregistered = c.unregistered.1;
    })
    | inr valid ↦ rw valid (record {
      untouched = c.untouched;
      expired_queued = register-All s.engine.registry e rest s.expired_rules c.expired_queued;
      failed_queued = register-All s.engine.registry e rest s.failed_rules c.failed_queued;
      unregistered = Absent-register_later s.engine.registry e rest d c.unregistered.1;
    })
  ]
  sort_entry-Clean expiring s e rest d c = interrupted-Clean s e rest d c
  sort_entry-Clean failed s e rest d c = interrupted-Clean s e rest d c
  sort_entry-Clean expired s e rest d c = stale-Clean s e rest c
  sort_entry-Clean cancelled s e rest d c = stale-Clean s e rest c

  sort_entries-Swept :
      (es : List TtlEntry) (s : Sorting W)
      → Distinct es
      → Clean w es s
      → Swept w (sort_entries es now s)
  unfolding sort_entries
  sort_entries-Swept [] s d c = record { untouched = c.untouched; ready = λ _. c }
  sort_entries-Swept (e ∷ es) s d c =
      let clean = sort_entry-Clean e.state s e es d.0 c in
      let s' = (sort_entry e.state s e now).0 in
      go s' clean (sort_entries-Swept es s' d.1 clean) (sort_entry e.state s e now).1
    where
      go :
          (t : Sorting W)
          → Clean w es t
          → Swept w (sort_entries es now t)
          → (r : Result TtlError (Unit {0}))
          → Swept w (elim r [ ok _ ↦ sort_entries es now t | err x ↦ (t, err x) ])
      go t k rest (ok _) = rest
      go t k rest (err x) = record { untouched = k.untouched; ready = λ q. absurd (cc) }

-- The entries that are loaded are of different rules.
load-Distinct :
    (p : Persister.Persister) (es : List TtlEntry) → Persister.load p ≡ ok es → Distinct es
unfolding Persister.load
load-Distinct p es q = go (replay p.lines ([], 0)) refl q
  where
    go :
        (r : Result TtlError Persister.Loaded)
        → replay p.lines ([], 0) ≡ r
        → (r >>= λ s. ok (values s.0)) ≡ ok es
        → Distinct es
    go (ok t) e h =
        subst Distinct (ok-injective h) (values-Distinct t.0 (replay-WellKeyed p.lines t e))
    go (err x) e h = absurd (cc)

All-Absent : (es : List TtlEntry) → All (Absent empty_registry) es
unfolding Map.get
All-Absent [] = tt
All-Absent (e ∷ es) = (refl, All-Absent es)

module _ {W : Type 0} (remove_rule : RuleId → W → W × Result FirewallError (Unit {0})) where
  sorted_removes_nothing :
      (w : W) (p : Sorting W × Result TtlError (Unit {0})) (now : ℕ)
      → Swept w p
      → (after_sorting remove_rule p now).0.firewall ≡ w
  unfolding after_sorting reschedule_timer
  sorted_removes_nothing w (s, err e) now c = c.untouched
  sorted_removes_nothing w (s, ok _) now c =
      let k = c.ready refl in
      process_all-Absent remove_rule s.engine (s.expired_rules ++ s.failed_rules) now 0 (
        All-append (Absent s.engine.registry) s.expired_rules s.failed_rules
          (Absent-All s.engine.registry s.expired_rules k.expired_queued)
          (Absent-All s.engine.registry s.failed_rules k.failed_queued))
      ∙ k.untouched

  loaded_removes_nothing :
      (eng : TtlEngine W) (now : ℕ) (loaded : Result TtlError (List TtlEntry))
      → eng.registry ≡ empty_registry
      → ((es : List TtlEntry) → loaded ≡ ok es → Distinct es)
      → (after_load remove_rule eng now loaded).0.firewall ≡ eng.firewall
  unfolding after_load
  loaded_removes_nothing eng now (err e) fresh d = refl
  loaded_removes_nothing eng now (ok es) fresh d =
      sorted_removes_nothing eng.firewall (sort_entries es now (start_sorting eng (length es))) now
        (sort_entries-Swept eng.firewall now es (start_sorting eng (length es)) (d es refl)
          (record {
            untouched = refl;
            expired_queued = tt;
            failed_queued = tt;
            unregistered = rw fresh (All-Absent es);
          }))

  -- A restarted engine, with nothing registered yet, leaves the firewall as it finds it, whatever
  -- the log, the time, the coordinator and the firewall are: no rule that expired during the
  -- downtime and no interrupted removal is carried out.
  pub recover_removes_nothing :
      (eng : TtlEngine W) (now : ℕ)
      → eng.registry ≡ empty_registry
      → (recover remove_rule eng now).0.firewall ≡ eng.firewall
  unfolding recover
  recover_removes_nothing eng now fresh =
      loaded_removes_nothing eng now (Persister.load eng.persister) fresh
        (load-Distinct eng.persister)
