-- ===== src/Core/Failure/Config.antt =====
-- core/failure.rs: the configuration with its fallbacks. A file is missing, cannot be read, does not parse, or
-- holds a TOML value. `absent_parent` gives the parent directory of a path if there is one
-- and it does not exist.
pub mod Chain
use project_whitequbit.Base.{
  ℕ, String, Bool, true, false, Option, none, some, List, [], ◌∷◌, ◌++◌, Result, ok, err, is_empty,
  if◌then◌else◌,
}
use project_whitequbit.Core.Failure.Values.{
  Scalars, Toml, Value, bool, text, object, Fields, none_left, field, toml_to_json, get, as_str,
  as_bool,
}

-- The texts of the complaints, as the constructors of a type.
pub data Complaint : Type 0 where
  missing_field wal_directory_missing : String → Complaint
  dry_run_enabled safe_minimum_used : Complaint

pub record ConfigValidationResult : Type 0 where
  pub valid : Bool
  pub errors : List Complaint
  pub warnings : List Complaint
  pub used_fallback : Bool

pub data LoadError : Type 0 where
  unreadable configuration : LoadError

abbrev and_then : {A B : Type 0} → Option A → (A → Option B) → Option B
and_then none f = none
and_then (some a) f = f a

pub record ConfigValidator (F : Type 0) : Type 0 where
  pub primary : F
  pub fallback : F

module _ (scalars : Scalars) where
  pub data ConfigFile : Type 0 where
    missing refused unparsed : ConfigFile
    parsed : Toml scalars → ConfigFile

  -- `fallback_path.exists()`
  abbrev exists : ConfigFile → Bool
  exists missing = false
  exists refused = true
  exists unparsed = true
  exists (parsed t) = true

  unfoldable pub safe_minimum : Value scalars
  safe_minimum = object (
      field "wal_path" (text "/var/lib/whitequbit/wal") (
        field "audit_path" (text "/var/log/whitequbit/audit.log") (
          field "socket_path" (text "/var/run/whitequbit/agent.sock") (
            field "pid_path" (text "/var/run/whitequbit/agent.pid") (
              field "actions"
                (object (
                  field "dry_run" (bool true) (field "require_confirmation" (bool true) none_left)))
                (field "logging" (object (field "level" (text "info") none_left)) none_left))))))

  -- One round of the loop over the required fields.
  abbrev require : String → Value scalars → List Complaint
  require name config = elim (get scalars name config) [
    | none ↦ missing_field name ∷ []
    | some v ↦ []
  ]

  unfoldable pub required_errors : List String → Value scalars → List Complaint
  required_errors [] config = []
  required_errors (name ∷ names) config = require name config ++ required_errors names config

  abbrev wal_warning : (String → Option String) → Option String → List Complaint
  wal_warning absent_parent none = []
  wal_warning absent_parent (some path) = elim (absent_parent path) [
    | none ↦ []
    | some parent ↦ wal_directory_missing parent ∷ []
  ]

  abbrev dry_run_warning : Option Bool → List Complaint
  dry_run_warning none = []
  dry_run_warning (some b) = if b then dry_run_enabled ∷ [] else []

  unfoldable pub validate : (String → Option String) → Value scalars → ConfigValidationResult
  unfolding required_errors
  validate absent_parent config =
      let errors = required_errors ("wal_path" ∷ "audit_path" ∷ "socket_path" ∷ []) config in
      record {
        valid = is_empty errors;
        errors = errors;
        warnings =
            wal_warning absent_parent (and_then (get scalars "wal_path" config) (as_str scalars))
            ++ dry_run_warning (
                and_then (and_then (get scalars "actions" config) (get scalars "dry_run"))
                  (as_bool scalars));
        used_fallback = false;
      }

  unfoldable pub try_load_and_validate :
      (String → Option String)
      → ConfigFile
      → Result LoadError (Value scalars × ConfigValidationResult)
  unfolding validate toml_to_json
  try_load_and_validate absent_parent missing = err unreadable
  try_load_and_validate absent_parent refused = err unreadable
  try_load_and_validate absent_parent unparsed = err configuration
  try_load_and_validate absent_parent (parsed t) =
      let config = toml_to_json scalars t in ok (config, validate absent_parent config)

  abbrev pub minimum : Value scalars × ConfigValidationResult
  minimum = (
    safe_minimum,
    record { valid = true; errors = []; warnings = safe_minimum_used ∷ []; used_fallback = true },
  )

  -- What a valid result gives, and what else is tried.
  abbrev valid_or :
      Result LoadError (Value scalars × ConfigValidationResult)
      → (ConfigValidationResult → ConfigValidationResult)
      → Value scalars × ConfigValidationResult
      → Value scalars × ConfigValidationResult
  valid_or (err e) mark else_ = else_
  valid_or (ok (config, result)) mark else_ = if result.valid then (config, mark result) else else_

  -- The source returns `Ok` on every branch.
  unfoldable pub load_with_fallback :
      (String → Option String) → ConfigValidator ConfigFile → Value scalars × ConfigValidationResult
  unfolding try_load_and_validate
  load_with_fallback absent_parent v =
      let second =
        if exists v.fallback
        then valid_or (try_load_and_validate absent_parent v.fallback)
            (λ r. record r { used_fallback = true }) minimum
        else minimum in
      valid_or (try_load_and_validate absent_parent v.primary) (λ r. r) second
