-- ===== src/Observability/Versioning/Manager.antt =====
-- observability/versioning.rs: the manager, which records changes at a bounded rate and tells its
-- subscribers. A subscriber is a function on a state of its own; `elapsed` times are differences of the clock.
use project_whitequbit.Base.{
  ℕ, ◌+◌, ◌-◌, Bool, true, false, Option, none, some, List, [], ◌∷◌, ◌++◌, Result, ok, err, length,
  leb, ltb, not, text_key, ◌==◌, if◌then◌else◌,
}
use project_whitequbit.Base.Hash.{Hashing}
use project_whitequbit.Observability.Versioning.Version.{
  VersionHash, VersionMetadata, SecurityVersion, Clock,
}
use project_whitequbit.Observability.Versioning.History.{get_version, range}
use project_whitequbit.Observability.Versioning.Store.{
  VersioningError, subscriber_error, VersionStore, Change, create_version, current_version,
  verify_integrity,
}

-- A difference of two scores, as what was gained and what was lost.
pub record ScoreDelta : Type 0 where
  pub gained : ℕ
  pub lost : ℕ

pub record VersionChangeEvent : Type 0 where
  pub version : SecurityVersion
  pub previous : Option SecurityVersion
  pub is_initial : Bool
  pub score_delta : Option ScoreDelta

-- The answer of a subscriber says whether it succeeded.
abbrev pub Subscriber : Type 0 → Type 0
Subscriber W = VersionChangeEvent → W → W × Bool

-- Every subscriber is told, whatever the others answer.
unfoldable pub notify_each : {W : Type 0} → List (Subscriber W) → VersionChangeEvent → W → W × ℕ
notify_each [] event w = (w, 0)
notify_each (sub ∷ subs) event w =
    let (w₁, well) = sub event w in
    let (w₂, failures) = notify_each subs event w₁ in (w₂, if well then failures else failures + 1)

unfoldable pub notify :
    {W : Type 0}
    → List (Subscriber W)
    → VersionChangeEvent
    → W
    → W × Result VersioningError (Unit {0})
unfolding notify_each
notify subs event w =
    let (w', failures) = notify_each subs event w in
    if ltb 0 failures then (w', err subscriber_error) else (w', ok tt)

pub record VersionManagerConfig : Type 0 where
  pub history_size : ℕ
  pub min_interval : ℕ

unfoldable pub manager_defaults : VersionManagerConfig
manager_defaults = record { history_size = 1000; min_interval = 1000 }

-- `world` is the state of the subscribers; intervals are in milliseconds.
pub record VersionManager (W : Type 0) : Type 0 where
  pub store : VersionStore
  pub subscribers : List (Subscriber W)
  pub world : W
  pub config : VersionManagerConfig
  pub last_version_time : Option ℕ

abbrev too_soon : Option ℕ → ℕ → ℕ → Bool
too_soon none interval now = false
too_soon (some last) interval now = ltb (now - last) interval

abbrev score_of : Option VersionMetadata → Option ℕ
score_of none = none
score_of (some m) = m.security_score

abbrev old_score : Option SecurityVersion → Option ℕ
old_score none = none
old_score (some v) = v.metadata.security_score

abbrev delta : Option ℕ → Option ℕ → Option ScoreDelta
delta (some new) (some old) = some (record { gained = new - old; lost = old - new })
delta (some new) none = none
delta none o = none

abbrev is_new : Option SecurityVersion → SecurityVersion → Bool
is_new none v = true
is_new (some p) v = not (p.version_hash == v.version_hash)

module _ {D W : Type 0} (hashing : Hashing D) where
  abbrev announced :
      Change
      → Clock
      → Option SecurityVersion
      → SecurityVersion
      → VersionManager W
      → VersionManager W
  announced c clock previous v m =
      let event : VersionChangeEvent = record {
        version = v;
        previous = previous;
        is_initial = leb v.sequence 0;
        score_delta = delta (score_of c.metadata) (old_score previous);
      } in
      record m {
        last_version_time = some clock.now_ms;
        world = (notify m.subscribers event m.world).0;
      }

  -- `record_change` once the rate is seen to allow it.
  unfoldable pub record_allowed :
      Change → Clock → VersionManager W → VersionManager W × Result VersioningError SecurityVersion
  unfolding create_version notify current_version
  record_allowed c clock m =
      let previous = current_version m.store in
      let (s, r) = create_version hashing c clock m.store in
      let m' = record m { store = s } in
      elim r [
        | err x ↦ (m', err x)
        | ok v ↦ (if is_new previous v then announced c clock previous v m' else m', ok v)
      ]

  abbrev limited :
      Bool
      → Option SecurityVersion
      → VersionManager W
      → VersionManager W × Result VersioningError SecurityVersion
      → VersionManager W × Result VersioningError SecurityVersion
  limited true (some v) m other = (m, ok v)
  limited true none m other = other
  limited false current m other = other

  unfoldable pub record_change :
      Change → Clock → VersionManager W → VersionManager W × Result VersioningError SecurityVersion
  unfolding record_allowed current_version
  record_change c clock m =
      limited (too_soon m.last_version_time m.config.min_interval clock.now_ms)
        (current_version m.store) m (record_allowed c clock m)

module _ {W : Type 0} where
  unfoldable pub subscribe : Subscriber W → VersionManager W → VersionManager W
  subscribe sub m = record m { subscribers = m.subscribers ++ sub ∷ [] }

  -- The last numbers, as many as asked for.
  unfoldable pub recent_history : ℕ → VersionManager W → List SecurityVersion
  unfolding range
  recent_history count m =
      range (m.store.next_sequence - count) m.store.next_sequence m.store.history

-- The difference of the times is left out.
pub record VersionComparison : Type 0 where
  pub older : SecurityVersion
  pub newer : SecurityVersion
  pub sequence_delta : ℕ
  pub same_content : Bool

abbrev comparison : SecurityVersion → SecurityVersion → VersionComparison
comparison v w = record {
  older = if ltb v.sequence w.sequence then v else w;
  newer = if leb w.sequence v.sequence then v else w;
  sequence_delta = (v.sequence - w.sequence) + (w.sequence - v.sequence);
  same_content = v.content_hash == w.content_hash;
}

abbrev compare_found : Option SecurityVersion → Option SecurityVersion → Option VersionComparison
compare_found none o = none
compare_found (some v) none = none
compare_found (some v) (some w) = some (comparison v w)

unfoldable pub compare_versions :
    {W : Type 0} → VersionHash → VersionHash → VersionManager W → Option VersionComparison
unfolding get_version
compare_versions v w m =
    compare_found (get_version v m.store.history) (get_version w m.store.history)

pub record VersionStats : Type 0 where
  pub total : ℕ
  pub current_sequence : ℕ
  pub history_size : ℕ
  pub subscriber_count : ℕ
  pub integrity_valid : Bool

module _ {D W : Type 0} (hashing : Hashing D) where
  unfoldable pub version_stats : VersionManager W → VersionStats
  unfolding verify_integrity
  version_stats m = record {
    total = m.store.total_versions;
    current_sequence = m.store.next_sequence - 1;
    history_size = m.config.history_size;
    subscriber_count = length m.subscribers;
    integrity_valid = verify_integrity hashing m.store;
  }
