-- ===== src/Ttl/Persister/Keys.antt =====
-- The replay of the TTL log has one entry a rule, under the rule's own key.
use project_whitequbit.Base.{
  ℕ, ◌≡◌, refl, Bool, false, some, List, [], ◌∷◌, leb, ok, text_key, ◌==◌, ==_iff, arith,
  Option-cases, Bool-cases, inl, inr, any, is_some, subst, ok-injective,
}
use project_whitequbit.Base.Map
use project_whitequbit.Base.Map.{Map, values, Unique, insert-Unique, remove-Unique}
use project_whitequbit.Ttl.Entry.{RuleId, TtlEntry}
use project_whitequbit.Ttl.Persister.{
  TtlLogOp, register, update, remove, compacted, Line, blank, garbled, logged, Loaded, apply_op,
  replay,
}

abbrev pub lists : RuleId → List TtlEntry → Bool
lists id es = any (λ e. e.rule_id == id) es

-- No two entries are of one rule.
abbrev pub Distinct : List TtlEntry → Type 0
Distinct [] = Unit
Distinct (e ∷ es) = (lists e.rule_id es ≡ false) × Distinct es

-- Every entry stands under its own rule.
abbrev pub OwnKeys : Map RuleId TtlEntry → Type 0
OwnKeys [] = Unit
OwnKeys ((id, e) ∷ m) = (e.rule_id ≡ id) × OwnKeys m

pub get-OwnKeys :
    (id : RuleId) (e : TtlEntry) (m : Map RuleId TtlEntry)
    → OwnKeys m
    → Map.get id m ≡ some e
    → e.rule_id ≡ id
unfolding Map.get
get-OwnKeys id e [] h q = absurd (cc)
get-OwnKeys id e ((j, x) ∷ m) h q = ground (arith, ==_iff j id, get-OwnKeys id e m h.1)

insert-OwnKeys :
    (id : RuleId) (e : TtlEntry) (m : Map RuleId TtlEntry)
    → e.rule_id ≡ id
    → OwnKeys m
    → OwnKeys (Map.insert id e m)
unfolding Map.insert
insert-OwnKeys id e [] q h = (q, tt)
insert-OwnKeys id e ((j, x) ∷ m) q h = ground (arith, insert-OwnKeys id e m q h.1)

remove-OwnKeys : (id : RuleId) (m : Map RuleId TtlEntry) → OwnKeys m → OwnKeys (Map.remove id m)
unfolding Map.remove
remove-OwnKeys id [] h = tt
remove-OwnKeys id ((j, x) ∷ m) h = ground (arith, remove-OwnKeys id m h.1)

pub record WellKeyed (m : Map RuleId TtlEntry) : Type 0 where
  pub unique : Unique m
  pub own : OwnKeys m

insert-WellKeyed :
    (id : RuleId) (e : TtlEntry) (m : Map RuleId TtlEntry)
    → e.rule_id ≡ id
    → WellKeyed m
    → WellKeyed (Map.insert id e m)
insert-WellKeyed id e m q w = record {
  unique = insert-Unique id e m w.unique;
  own = insert-OwnKeys id e m q w.own;
}

apply_op-WellKeyed :
    (op : TtlLogOp) (m : Map RuleId TtlEntry) (c : ℕ)
    → WellKeyed m
    → WellKeyed (apply_op op (m, c)).0
unfolding apply_op
apply_op-WellKeyed (register e) m c w = insert-WellKeyed e.rule_id e m refl w
apply_op-WellKeyed (update id s g) m c w = elim (Option-cases (Map.get id m)) [
  | inl q ↦ rw (q, apply_op) w
  | inr (e, q) ↦
      rw (q, apply_op) (insert-WellKeyed id _ m (ground (arith, get-OwnKeys id e m w.own q)) w)
]
apply_op-WellKeyed (remove id) m c w = record {
  unique = remove-Unique id m w.unique;
  own = remove-OwnKeys id m w.own;
}
apply_op-WellKeyed (compacted n) m c w = w

-- What a replay gives from entries that stand under their rules.
replay-WellKeyed_from :
    (lines : List Line) (s t : Loaded) → WellKeyed s.0 → replay lines s ≡ ok t → WellKeyed t.0
unfolding replay
replay-WellKeyed_from [] s t w q = subst (λ (x : Loaded). WellKeyed x.0) (ok-injective q) w
replay-WellKeyed_from (blank ∷ rest) s t w q = replay-WellKeyed_from rest s t w q
replay-WellKeyed_from (garbled ∷ rest) s t w q = absurd (cc)
replay-WellKeyed_from (logged e ∷ rest) (m, c) t w q = elim (Bool-cases (leb e.seq c)) [
  | inl old ↦ replay-WellKeyed_from rest (m, c) t w (rw old at q)
  | inr new ↦
      replay-WellKeyed_from rest (apply_op e.op (m, c)) t (apply_op-WellKeyed e.op m c w)
        (rw new at q)
]

pub replay-WellKeyed :
    (lines : List Line) (t : Loaded) → replay lines ([], 0) ≡ ok t → WellKeyed t.0
replay-WellKeyed lines t q =
    replay-WellKeyed_from lines ([], 0) t (record { unique = tt; own = tt }) q

lists-values :
    (id : RuleId) (m : Map RuleId TtlEntry)
    → OwnKeys m
    → lists id (values m) ≡ is_some (Map.get id m)
unfolding Map.get
lists-values id [] h = refl
lists-values id ((j, e) ∷ m) h =
    ground (arith, lists-values id m h.1, ==_iff j id, ==_iff e.rule_id id)

pub values-Distinct : (m : Map RuleId TtlEntry) → WellKeyed m → Distinct (values m)
values-Distinct [] w = tt
values-Distinct ((j, e) ∷ m) w = (
  ground (arith, lists-values e.rule_id m w.own.1, w.unique.0, w.own.0),
  values-Distinct m (record { unique = w.unique.1; own = w.own.1 }),
)
