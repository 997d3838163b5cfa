-- ===== src/Ttl/Index/Order.antt =====
-- The buckets of the time-ordered index stand in ascending order and are never empty, so the
-- first one holds the earliest time.
use project_whitequbit.Base.{
  ℕ, suc, ◌≤◌, ◌≡◌, refl, true, false, none, some, List, [], ◌∷◌, arith, is_empty, text_key, ==_iff,
}
use project_whitequbit.Ttl.Entry.{RuleId}
use project_whitequbit.Ttl.Index.{
  Index, set_contains, set_insert, index_insert, index_remove, first_key, indexed,
}

-- The keys ascend from `lo`, and every bucket holds a rule.
abbrev pub SortedFrom : ℕ → Index → Type 0
SortedFrom lo [] = Unit
SortedFrom lo ((t, ids) ∷ rest) = (lo ≤ t) × (is_empty ids ≡ false) × SortedFrom (suc t) rest

pub SortedFrom-mono : (lo hi : ℕ) (idx : Index) → lo ≤ hi → SortedFrom hi idx → SortedFrom lo idx
SortedFrom-mono lo hi [] h s = tt
SortedFrom-mono lo hi ((t, ids) ∷ rest) h s = (omega arith, s.1, s.2)

is_empty-set_insert : (id : RuleId) (ids : List RuleId) → is_empty (set_insert id ids) ≡ false
unfolding set_insert set_contains
is_empty-set_insert id [] = refl
is_empty-set_insert id (x ∷ xs) = ground arith

pub index_insert-SortedFrom :
    (lo at : ℕ) (id : RuleId) (idx : Index)
    → lo ≤ at
    → SortedFrom lo idx
    → SortedFrom lo (index_insert at id idx)
unfolding index_insert
index_insert-SortedFrom lo at id [] h s = (h, is_empty-set_insert id [], tt)
index_insert-SortedFrom lo at id ((t, ids) ∷ rest) h s = ground (
  arith,
  is_empty-set_insert id [],
  is_empty-set_insert id ids,
  index_insert-SortedFrom (suc t) at id rest,
)

pub index_remove-SortedFrom :
    (lo at : ℕ) (id : RuleId) (idx : Index)
    → SortedFrom lo idx
    → SortedFrom lo (index_remove at id idx)
unfolding index_remove
index_remove-SortedFrom lo at id [] s = tt
index_remove-SortedFrom lo at id ((t, ids) ∷ rest) s = ground (
  arith,
  index_remove-SortedFrom (suc t) at id rest s.2,
  SortedFrom-mono lo (suc t) (index_remove at id rest),
)

indexed-le :
    (lo t : ℕ) (id : RuleId) (idx : Index) → SortedFrom lo idx → indexed t id idx ≡ true → lo ≤ t
unfolding indexed
indexed-le lo t id [] s h = cc
indexed-le lo t id ((u, ids) ∷ rest) s h = ground (arith, indexed-le (suc u) t id rest s.2)

-- The first key is no later than any indexed time.
pub first_key-le :
    (idx : Index) (t u : ℕ) (id : RuleId)
    → SortedFrom 0 idx
    → indexed t id idx ≡ true
    → first_key idx ≡ some u
    → u ≤ t
unfolding indexed first_key
first_key-le [] t u id s h e = cc
first_key-le ((v, ids) ∷ rest) t u id s h e = ground (arith, indexed-le (suc v) t id rest s.2)

-- An index with a first key holds a rule at it.
pub first_key-indexed :
    (idx : Index) (u : ℕ)
    → SortedFrom 0 idx
    → first_key idx ≡ some u
    → (id : RuleId) × (indexed u id idx ≡ true)
unfolding indexed first_key set_contains
first_key-indexed [] u s e = absurd (cc)
first_key-indexed ((v, []) ∷ rest) u s e = absurd (ground arith)
first_key-indexed ((v, x ∷ xs) ∷ rest) u s e = (x, ground (arith, ==_iff x x))

-- With no first key nothing is indexed.
pub first_key-none :
    (idx : Index) (t : ℕ) (id : RuleId) → first_key idx ≡ none → indexed t id idx ≡ false
unfolding indexed first_key
first_key-none [] t id e = refl
first_key-none ((v, ids) ∷ rest) t id e = cc
