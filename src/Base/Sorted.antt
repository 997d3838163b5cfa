-- ===== src/Base/Sorted.antt =====
-- Rust's `BTreeMap<String, V>` where the order of the keys matters: an association list in that order.
use Prim.Native.String.{String, compare}
use Prim.Native.Nat.{ℕ, Ordering}
use project_whitequbit.Base.Tests.{if◌then◌else◌, ltb, nat_eqb}
use mathlib.Core.List.{List, [], ◌∷◌}

abbrev pub SortedMap {ℓ} : Type ℓ → Type ℓ
SortedMap V = List (String × V)

-- `BTreeMap::insert`.
unfoldable pub put {ℓ} : {V : Type ℓ} → String → V → SortedMap V → SortedMap V
put k v [] = (k, v) ∷ []
put k v ((j, w) ∷ m) =
    let kept = (j, w) ∷ put k v m in
    elim (compare k j) [
      | Ordering.lt ↦ (k, v) ∷ (j, w) ∷ m
      | Ordering.eq ↦ (k, v) ∷ m
      | Ordering.gt ↦ kept
    ]

-- `BTreeMap<u64, V>`: a list in the order of the keys, with `insert` and `remove`.
abbrev pub NumberedMap {ℓ} : Type ℓ → Type ℓ
NumberedMap V = List (ℕ × V)

unfoldable pub put_at {ℓ} : {V : Type ℓ} → ℕ → V → NumberedMap V → NumberedMap V
put_at n v [] = (n, v) ∷ []
put_at n v ((k, w) ∷ m) =
    let later = (k, w) ∷ put_at n v m in
    if ltb n k then (n, v) ∷ (k, w) ∷ m else if nat_eqb n k then (n, v) ∷ m else later

unfoldable pub drop_at {ℓ} : {V : Type ℓ} → ℕ → NumberedMap V → NumberedMap V
drop_at n [] = []
drop_at n ((k, w) ∷ m) = let rest = (k, w) ∷ drop_at n m in if nat_eqb n k then m else rest
