-- ===== src/Tests/Versions.antt =====
-- observability/versioning.rs on concrete inputs.
use project_whitequbit.Base.{
  ℕ, ◌+◌, ◌≡◌, refl, true, false, none, List, [], ◌∷◌, ltb, arith, text_key, ◌==◌, if◌then◌else◌,
}
use project_whitequbit.Base.Hash.{Hashing}
use project_whitequbit.Observability.Versioning.Version.{
  VersionHash, SecurityVersion, Clock, port_opened, no_metadata, new_version,
}
use project_whitequbit.Observability.Versioning.History.{push_version, latest, chained}
use project_whitequbit.Observability.Versioning.Store.{
  VersionStore, Change, open_store, create_version, verify_integrity,
}
use project_whitequbit.Observability.Versioning.Store.Chain.{create_all, create_all-IsSound}
use project_whitequbit.Observability.Versioning.Store.Repeat.{repeat_breaks}

abbrev total : List ℕ → ℕ
total [] = 0
total (n ∷ ns) = n + total ns

abbrev hashing : Hashing ℕ
hashing = record {
  digest = λ bs. if ltb 20 (total bs) then "large" else "small";
  text_bytes = λ s. if s == "" then [] else 7 ∷ [];
  data_bytes = λ d. d ∷ [];
  time_bytes = λ n. n ∷ [];
}

abbrev change : VersionHash → Change
change content = record {
  content_hash = content;
  change_summary = "port";
  change_type = port_opened;
  metadata = none;
}

abbrev clock : Clock
clock = record { now = 3; now_ms = 5 }

abbrev store : VersionStore
store = open_store [] false true 2

abbrev changes : List (Change × Clock)
changes = (change "x", clock) ∷ (change "y", clock) ∷ (change "z", clock) ∷ []

create_all-IsSound_example : verify_integrity hashing (create_all hashing changes store) ≡ true
unfolding open_store create_version latest new_version push_version chained
create_all-IsSound_example =
    (create_all-IsSound hashing changes store refl (refl, (refl, (refl, tt))) (refl, refl, tt)).1

repeat_breaks_example :
    verify_integrity hashing
      (create_version hashing
        (change "y")
        clock
        (create_version hashing
          (change "x")
          clock
          (create_all hashing ((change "x", clock) ∷ []) store)).0).0
    ≡ false
unfolding open_store create_version latest new_version push_version chained
repeat_breaks_example =
    repeat_breaks hashing (change "x") (change "y") clock clock
      (create_all hashing ((change "x", clock) ∷ []) store) refl
      (create_all-IsSound hashing ((change "x", clock) ∷ []) store refl (refl, tt)
        (refl, refl, tt)).0
      (omega arith) refl refl

abbrev named : VersionHash → ℕ → SecurityVersion
named hash sequence = record {
  sequence = sequence;
  content_hash = hash;
  version_hash = hash;
  parent_hash = "";
  timestamp = 1;
  timestamp_ms = 1;
  change_summary = "";
  change_type = port_opened;
  metadata = no_metadata;
}
