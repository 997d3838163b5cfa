-- ===== src/Rollback/Compensator.antt =====
-- rollback/compensator.rs: undoing prepared actions. A handler is the outside world: `W` is its state,
-- and a call answers with an error or nothing and leaves another state. The delay between two
-- attempts and the log lines are left out.
pub mod Attempts
pub mod Order
use project_whitequbit.Base.{
  ℕ, zero, suc, ◌+◌, ◌-◌, String, Bool, true, false, Option, none, some, List, [], ◌∷◌, ◌++◌, leb,
  not, if◌then◌else◌, Result, ok, err, keep, all, text_key,
}
use project_whitequbit.Base.Map
use project_whitequbit.Base.Map.{Map}
use project_whitequbit.Rollback.Journal.{UncommittedEntry}

pub record CompensationResult : Type 0 where
  pub entry_id : ℕ
  pub success : Bool
  pub error : Option String

unfoldable pub success_of : ℕ → CompensationResult
success_of entry_id = record { entry_id = entry_id; success = true; error = none }

unfoldable pub failure_of : ℕ → String → CompensationResult
failure_of entry_id error = record { entry_id = entry_id; success = false; error = some error }

abbrev pub Handler : Type 0 → Type 0 → Type 0
Handler W D = String → D → W → W × Result String (Unit {0})

pub record Compensator (W D : Type 0) : Type 0 where
  pub max_retries : ℕ
  pub handlers : Map String (Handler W D)

module _ {D : Type 0} where
  -- `sort_by` on the identifier, the greatest first; the sort is stable.
  unfoldable pub insert_latest :
      UncommittedEntry D → List (UncommittedEntry D) → List (UncommittedEntry D)
  insert_latest e [] = e ∷ []
  insert_latest e (x ∷ xs) =
      let later = insert_latest e xs in if leb x.id e.id then e ∷ x ∷ xs else x ∷ later

  unfoldable pub sort_latest : List (UncommittedEntry D) → List (UncommittedEntry D)
  unfolding insert_latest
  sort_latest [] = []
  sort_latest (e ∷ es) = insert_latest e (sort_latest es)

module _ {W D : Type 0} where
  unfoldable pub new_compensator : Compensator W D
  new_compensator = record { max_retries = 3; handlers = [] }

  unfoldable pub with_max_retries : ℕ → Compensator W D → Compensator W D
  with_max_retries retries c = record c { max_retries = retries }

  unfoldable pub register_handler : String → Handler W D → Compensator W D → Compensator W D
  register_handler action_type handler c = record c {
    handlers = Map.insert action_type handler c.handlers;
  }

  -- The loop over the attempts, with the attempts left and the last error.
  unfoldable pub attempts :
      Handler W D → UncommittedEntry D → ℕ → String → W → W × CompensationResult
  attempts handler e zero last_error w = (w, failure_of e.id last_error)
  attempts handler e (suc n) last_error w =
      let (w', r) = handler e.action_type e.compensation_data w in
      elim r [ ok _ ↦ (w', success_of e.id) | err message ↦ attempts handler e n message w' ]

  -- `no_handler` is the text of the error for an action type.
  unfoldable pub compensate :
      (String → String) → Compensator W D → UncommittedEntry D → W → W × CompensationResult
  unfolding attempts
  compensate no_handler c e w = elim (Map.get e.action_type c.handlers) [
    | none ↦ (w, failure_of e.id (no_handler e.action_type))
    | some handler ↦ attempts handler e c.max_retries "" w
  ]

  -- The loop of `compensate_all`, which goes on after a failure.
  unfoldable pub compensate_each :
      (String → String)
      → Compensator W D
      → List (UncommittedEntry D)
      → W
      → W × List CompensationResult
  unfolding compensate
  compensate_each no_handler c [] w = (w, [])
  compensate_each no_handler c (e ∷ es) w =
      let (w', r) = compensate no_handler c e w in
      let (w'', rs) = compensate_each no_handler c es w' in (w'', r ∷ rs)

  unfoldable pub compensate_all :
      (String → String)
      → Compensator W D
      → List (UncommittedEntry D)
      → W
      → W × List CompensationResult
  unfolding compensate_each sort_latest
  compensate_all no_handler c entries w = compensate_each no_handler c (sort_latest entries) w

unfoldable pub all_succeeded : List CompensationResult → Bool
all_succeeded results = all (λ r. r.success) results

unfoldable pub get_failed : List CompensationResult → List CompensationResult
get_failed results = keep (λ r. not r.success) results
