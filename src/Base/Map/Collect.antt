-- ===== src/Base/Map/Collect.antt =====
-- A map rebuilt from its values, each under its own key.
use project_whitequbit.Base.Lists.{All, All-imp}
use project_whitequbit.Base.Keys.{Key}
use project_whitequbit.Base.Map.{Map, get, insert, remove, values, Unique, get-insert}
use mathlib.Core.Path.{◌≡◌, refl, ◌∙◌}
use mathlib.Core.Option.{Option, none, some}
use mathlib.Core.List.{List, [], ◌∷◌}
use native.Mathlib.Omega.{arith}

module _ {ℓ κ} {K : Type ℓ} {V : Type κ} ⦃key : Key K⦄ (own : V → K) where
  -- The loop that inserts values under their keys, a later one over an earlier one.
  unfoldable pub collect : List V → Map K V → Map K V
  collect [] m = m
  collect (v ∷ vs) m = collect vs (insert (own v) v m)

  -- Every value stands under its own key.
  abbrev pub OwnKeys : Map K V → Type ℓ
  OwnKeys [] = Unit
  OwnKeys ((k, v) ∷ m) = (own v ≡ k) × OwnKeys m

  pub insert-OwnKeys :
      (k : K) (v : V) (m : Map K V) → own v ≡ k → OwnKeys m → OwnKeys (insert k v m)
  unfolding insert
  insert-OwnKeys k v [] q h = (q, tt)
  insert-OwnKeys k v ((j, w) ∷ m) q h = ground (arith, insert-OwnKeys k v m q h.1)

  pub get-OwnKeys : (k : K) (v : V) (m : Map K V) → OwnKeys m → get k m ≡ some v → own v ≡ k
  unfolding get
  get-OwnKeys k v [] h q = absurd (cc)
  get-OwnKeys k v ((j, w) ∷ m) h q = ground (arith, key.decides j k, get-OwnKeys k v m h.1)

  -- What a map under another gives where the first has nothing.
  abbrev or_else : Option V → Option V → Option V
  or_else none o = o
  or_else (some v) o = some v

  get-collect_over :
      (k : K) (m n : Map K V)
      → Unique m
      → OwnKeys m
      → get k (collect (values m) n) ≡ or_else (get k m) (get k n)
  unfolding get collect
  get-collect_over k [] n u h = refl
  get-collect_over k ((j, v) ∷ m) n u h = ground (
    arith,
    get-collect_over k m (insert (own v) v n) u.1 h.1,
    get-insert (own v) k v n,
    key.decides j k,
    key.decides (own v) k,
    u.0,
    h.0,
  )

  -- Collecting the values of a map gives the map back, key by key.
  pub get-collect :
      (k : K) (m : Map K V) → Unique m → OwnKeys m → get k (collect (values m) []) ≡ get k m
  unfolding get
  get-collect k m u h = get-collect_over k m [] u h ∙ or_else-none (get k m)
    where
      or_else-none : (o : Option V) → or_else o none ≡ o
      or_else-none none = refl
      or_else-none (some v) = refl

  found_later :
      (k : K) (v x : V) (m : Map K V)
      → get k m ≡ none
      → get (own x) m ≡ some x
      → get (own x) ((k, v) ∷ m) ≡ some x
  unfolding get
  found_later k v x m gone h = ground (arith, key.decides k (own x))

  -- Every value of a map is found under its own key.
  pub values_found :
      (m : Map K V) → Unique m → OwnKeys m → All (λ v. get (own v) m ≡ some v) (values m)
  unfolding get
  values_found [] u h = tt
  values_found ((k, v) ∷ m) u h = (
    ground (arith, key.decides k (own v), h.0),
    All-imp {P = λ x. get (own x) m ≡ some x} {Q = λ x. get (own x) ((k, v) ∷ m) ≡ some x}
        (λ x q. found_later k v x m u.0 q) (values m) (values_found m u.1 h.1),
  )

  pub remove-OwnKeys : (k : K) (m : Map K V) → OwnKeys m → OwnKeys (remove k m)
  unfolding remove
  remove-OwnKeys k [] h = tt
  remove-OwnKeys k ((j, v) ∷ m) h = ground (arith, remove-OwnKeys k m h.1)
