-- ===== src/Ttl/Index.antt =====
-- firewall/ttl.rs: the time-ordered index of the registry, a `BTreeMap<u64, HashSet<RuleId>>`, as
-- a list of buckets in the order of their keys.
pub mod Order
use project_whitequbit.Base.{
  ℕ, ◌≤◌, ◌<◌, ◌≡◌, refl, Bool, true, false, not, ◌&&◌, ◌||◌, Option, none, some, List, [], ◌∷◌,
  ltb, leb, nat_eqb, if◌then◌else◌, ◌==◌, text_key, arith, any, is_empty, ==_iff, Bool-cases, inl,
  inr,
}
use project_whitequbit.Ttl.Entry.{RuleId}

abbrev pub Index : Type 0
Index = List (ℕ × List RuleId)

-- `HashSet::insert`, `HashSet::remove` and `HashSet::contains`.
unfoldable pub set_contains : RuleId → List RuleId → Bool
set_contains id [] = false
set_contains id (x ∷ xs) = x == id || set_contains id xs

unfoldable pub set_insert : RuleId → List RuleId → List RuleId
set_insert id xs = if set_contains id xs then xs else id ∷ xs

unfoldable pub set_remove : RuleId → List RuleId → List RuleId
set_remove id [] = []
set_remove id (x ∷ xs) = let rest = set_remove id xs in if x == id then rest else x ∷ rest

-- `by_expiration.entry(at).or_default().insert(id)`
unfoldable pub index_insert : ℕ → RuleId → Index → Index
unfolding set_insert set_contains
index_insert at id [] = (at, set_insert id []) ∷ []
index_insert at id ((t, ids) ∷ rest) =
    if nat_eqb t at
    then (t, set_insert id ids) ∷ rest
    else if ltb at t
    then (at, set_insert id []) ∷ (t, ids) ∷ rest
    else (t, ids) ∷ index_insert at id rest

-- A bucket that has become empty goes.
abbrev put_bucket : ℕ → List RuleId → Index → Index
put_bucket t ids rest = if is_empty ids then rest else (t, ids) ∷ rest

-- `if let Some(set) = get_mut(at) { set.remove(id); if set.is_empty() { remove(at) } }`
unfoldable pub index_remove : ℕ → RuleId → Index → Index
unfolding set_remove
index_remove at id [] = []
index_remove at id ((t, ids) ∷ rest) =
    let others = index_remove at id rest in
    if nat_eqb t at then put_bucket t (set_remove id ids) others else (t, ids) ∷ others

-- `by_expiration.keys().next()`
unfoldable pub first_key : Index → Option ℕ
first_key [] = none
first_key ((t, ids) ∷ rest) = some t

-- Whether the bucket at a time holds a rule.
unfoldable pub indexed : ℕ → RuleId → Index → Bool
unfolding set_contains
indexed at id [] = false
indexed at id ((t, ids) ∷ rest) = (nat_eqb t at && set_contains id ids) || indexed at id rest

set_contains-insert :
    (id j : RuleId) (xs : List RuleId)
    → set_contains j (set_insert id xs) ≡ (if id == j then true else set_contains j xs)
unfolding set_insert set_contains
set_contains-insert id j xs = elim (Bool-cases (id == j)) [
  | inl same ↦
      let e : id ≡ j = (==_iff id j).0 same in
      rw (same) (
        rw (e) (elim (Bool-cases (set_contains j xs)) [
          | inl old ↦ rw old old
          | inr new ↦ rw (new, (==_iff j j).1 refl)
        ]))
  | inr other ↦
      rw other
        (elim (Bool-cases (set_contains id xs)) [ inl old ↦ rw old | inr new ↦ rw (new, other) ])
]

set_contains-remove :
    (id j : RuleId) (xs : List RuleId)
    → set_contains j (set_remove id xs) ≡ (if id == j then false else set_contains j xs)
unfolding set_remove set_contains
set_contains-remove id j [] = ground arith
set_contains-remove id j (x ∷ xs) =
    ground (arith, ==_iff id j, ==_iff x id, ==_iff x j, set_contains-remove id j xs)

pub indexed-insert :
    (at : ℕ) (id : RuleId) (t : ℕ) (j : RuleId) (idx : Index)
    → indexed t j (index_insert at id idx)
      ≡ (if nat_eqb at t && id == j then true else indexed t j idx)
unfolding index_insert indexed
indexed-insert at id t j [] = ground (arith, set_contains-insert id j [])
indexed-insert at id t j ((u, ids) ∷ rest) = ground (
  arith,
  set_contains-insert id j [],
  set_contains-insert id j ids,
  indexed-insert at id t j rest,
)

indexed-put_bucket :
    (u : ℕ) (ids : List RuleId) (rest : Index) (t : ℕ) (j : RuleId)
    → indexed t j (put_bucket u ids rest)
      ≡ ((nat_eqb u t && set_contains j ids) || indexed t j rest)
unfolding indexed
indexed-put_bucket u [] rest t j = ground arith
indexed-put_bucket u (x ∷ xs) rest t j = refl

pub indexed-remove :
    (at : ℕ) (id : RuleId) (t : ℕ) (j : RuleId) (idx : Index)
    → indexed t j (index_remove at id idx)
      ≡ (if nat_eqb at t && id == j then false else indexed t j idx)
unfolding index_remove indexed
indexed-remove at id t j [] = ground arith
indexed-remove at id t j ((u, ids) ∷ rest) = ground (
  arith,
  indexed-put_bucket u (set_remove id ids) rest t j,
  indexed-put_bucket u (set_remove id ids) (index_remove at id rest) t j,
  set_contains-remove id j ids,
  indexed-remove at id t j rest,
)
