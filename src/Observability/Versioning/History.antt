-- ===== src/Observability/Versioning/History.antt =====
-- observability/versioning.rs: the history in memory, which holds a bounded number of versions. The index by
-- hash holds positions.
pub mod Stale
use project_whitequbit.Base.{
  ℕ, zero, suc, ◌+◌, String, Bool, true, false, Option, none, some, List, [], ◌∷◌, ◌++◌, length,
  leb, ◌&&◌, is_empty, text_key, if◌then◌else◌,
}
use project_whitequbit.Base.Map
use project_whitequbit.Base.Map.{Map}
use project_whitequbit.Base.Sorted.{NumberedMap, put_at, drop_at}
use project_whitequbit.Observability.Versioning.Version.{VersionHash, SecurityVersion, follows}

pub record VersionHistory : Type 0 where
  pub max_size : ℕ
  pub versions : List SecurityVersion
  pub by_hash : Map VersionHash ℕ
  pub by_sequence : NumberedMap VersionHash

unfoldable pub empty_history : ℕ → VersionHistory
empty_history max_size = record {
  max_size = max_size;
  versions = [];
  by_hash = [];
  by_sequence = [];
}

-- `pop_front` and the two removals from the indices.
abbrev pub pop_oldest : List SecurityVersion → VersionHistory → VersionHistory
pop_oldest [] h = h
pop_oldest (old ∷ rest) h = record h {
  versions = rest;
  by_hash = Map.remove old.version_hash h.by_hash;
  by_sequence = drop_at old.sequence h.by_sequence;
}

abbrev pub evicted : VersionHistory → VersionHistory
evicted h = if leb h.max_size (length h.versions) then pop_oldest h.versions h else h

abbrev pub added : SecurityVersion → VersionHistory → VersionHistory
added v h = record h {
  versions = h.versions ++ v ∷ [];
  by_hash = Map.insert v.version_hash (length h.versions) h.by_hash;
  by_sequence = put_at v.sequence v.version_hash h.by_sequence;
}

unfoldable pub push_version : SecurityVersion → VersionHistory → VersionHistory
push_version v h = added v (evicted h)

-- `VecDeque::get`
abbrev pub nth : ℕ → List SecurityVersion → Option SecurityVersion
nth n [] = none
nth zero (v ∷ vs) = some v
nth (suc n) (v ∷ vs) = nth n vs

abbrev at : Option ℕ → List SecurityVersion → Option SecurityVersion
at none vs = none
at (some n) vs = nth n vs

unfoldable pub get_version : VersionHash → VersionHistory → Option SecurityVersion
get_version hash h = at (Map.get hash h.by_hash) h.versions

abbrev find_hash : ℕ → NumberedMap VersionHash → Option VersionHash
find_hash n [] = none
find_hash n ((k, hash) ∷ m) =
    let later = find_hash n m in if leb n k && leb k n then some hash else later

abbrev get_named : Option VersionHash → VersionHistory → Option SecurityVersion
get_named none h = none
get_named (some hash) h = get_version hash h

unfoldable pub get_by_sequence : ℕ → VersionHistory → Option SecurityVersion
unfolding get_version
get_by_sequence sequence h = get_named (find_hash sequence h.by_sequence) h

abbrev pub last_of : List SecurityVersion → Option SecurityVersion
last_of [] = none
last_of (v ∷ []) = some v
last_of (v ∷ w ∷ vs) = last_of (w ∷ vs)

unfoldable pub latest : VersionHistory → Option SecurityVersion
latest h = last_of h.versions

abbrev found : Option SecurityVersion → List SecurityVersion → List SecurityVersion
found none vs = vs
found (some v) vs = v ∷ vs

abbrev in_range : ℕ → ℕ → NumberedMap VersionHash → VersionHistory → List SecurityVersion
in_range start_seq end_seq [] h = []
in_range start_seq end_seq ((k, hash) ∷ m) h =
    let rest = in_range start_seq end_seq m h in
    if leb start_seq k && leb k end_seq then found (get_version hash h) rest else rest

-- The source panics where the range is the wrong way round.
unfoldable pub range : ℕ → ℕ → VersionHistory → List SecurityVersion
unfolding get_version
range start_seq end_seq h = in_range start_seq end_seq h.by_sequence h

-- The loop over the windows of two.
unfoldable pub chained : List SecurityVersion → Bool
unfolding follows
chained [] = true
chained (v ∷ []) = true
chained (v ∷ w ∷ vs) = let rest = chained (w ∷ vs) in if follows w v then rest else false

unfoldable pub history_chained : VersionHistory → Bool
unfolding chained
history_chained h = chained h.versions
