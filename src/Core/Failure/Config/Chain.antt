-- ===== src/Core/Failure/Config/Chain.antt =====
-- What the chain of fallbacks returns.
use project_whitequbit.Base.{
  ◌≡◌, refl, ◌∙◌, String, Bool, true, false, Option, List, [], ◌∷◌, is_empty, not, if◌then◌else◌,
  arith,
}
use project_whitequbit.Core.Failure.Values.{Scalars, Value, toml_to_json}
use project_whitequbit.Core.Failure.Config.{
  Complaint, ConfigValidationResult, ConfigValidator, ConfigFile, missing, refused, unparsed,
  parsed, exists, required_errors, safe_minimum, validate, try_load_and_validate, valid_or, minimum,
  load_with_fallback,
}

is_empty-nil : {A : Type 0} (xs : List A) → is_empty xs ≡ true → xs ≡ []
is_empty-nil [] q = refl
is_empty-nil (x ∷ xs) q = ground arith

module _ (scalars : Scalars) (absent_parent : String → Option String) where
  abbrev pub missing_fields : Value scalars → List Complaint
  missing_fields = required_errors scalars ("wal_path" ∷ "audit_path" ∷ "socket_path" ∷ [])

  -- Whether a file parses and has the required fields.
  abbrev pub accepts : ConfigFile scalars → Bool
  accepts missing = false
  accepts refused = false
  accepts unparsed = false
  accepts (parsed t) = is_empty (missing_fields (toml_to_json scalars t))

  abbrev pub IsUsable : Value scalars × ConfigValidationResult → Type 0
  IsUsable (config, r) = (r.valid ≡ true) × (r.errors ≡ []) × (missing_fields config ≡ [])

  abbrev Keeps : (ConfigValidationResult → ConfigValidationResult) → Type 0
  Keeps mark =
      (r : ConfigValidationResult) → ((mark r).valid ≡ r.valid) × ((mark r).errors ≡ r.errors)

  either-IsUsable :
      (b : Bool) (x y : Value scalars × ConfigValidationResult)
      → (b ≡ true → IsUsable x)
      → IsUsable y
      → IsUsable (if b then x else y)
  either-IsUsable true x y f u = f refl
  either-IsUsable false x y f u = u

  valid_or-IsUsable :
      (f : ConfigFile scalars) (mark : ConfigValidationResult → ConfigValidationResult)
      (else_ : Value scalars × ConfigValidationResult)
      → Keeps mark
      → IsUsable else_
      → IsUsable (valid_or scalars (try_load_and_validate scalars absent_parent f) mark else_)
  unfolding try_load_and_validate validate
  valid_or-IsUsable missing mark else_ keeps u = u
  valid_or-IsUsable refused mark else_ keeps u = u
  valid_or-IsUsable unparsed mark else_ keeps u = u
  valid_or-IsUsable (parsed t) mark else_ keeps u =
      let config = toml_to_json scalars t in
      let checked = validate scalars absent_parent config in
      either-IsUsable (is_empty (missing_fields config)) (config, mark checked) else_
        (λ q.
          let nothing = is_empty-nil (missing_fields config) q in
          ((keeps checked).0 ∙ q, (keeps checked).1 ∙ nothing, nothing))
        u

  either_falls_back :
      (b : Bool) (x y : Value scalars × ConfigValidationResult)
      → x.1.used_fallback ≡ true
      → y.1.used_fallback ≡ true
      → (if b then x else y).1.used_fallback ≡ true
  either_falls_back true x y p q = p
  either_falls_back false x y p q = q

  second_falls_back :
      (f : ConfigFile scalars)
      → (valid_or scalars
          (try_load_and_validate scalars absent_parent f)
          (λ r. record r { used_fallback = true })
          (minimum scalars)).1.used_fallback
        ≡ true
  unfolding try_load_and_validate
  second_falls_back missing = refl
  second_falls_back refused = refl
  second_falls_back unparsed = refl
  second_falls_back (parsed t) =
      either_falls_back (validate scalars absent_parent (toml_to_json scalars t)).valid _
        (minimum scalars) refl refl

  first_or_second :
      (b : Bool) (x y : Value scalars × ConfigValidationResult)
      → x.1.used_fallback ≡ false
      → y.1.used_fallback ≡ true
      → (if b then x else y).1.used_fallback ≡ not b
  first_or_second true x y p q = p
  first_or_second false x y p q = q

  first_falls_back :
      (f : ConfigFile scalars) (second : Value scalars × ConfigValidationResult)
      → second.1.used_fallback ≡ true
      → (valid_or scalars
          (try_load_and_validate scalars absent_parent f)
          (λ r. r)
          second).1.used_fallback
        ≡ not (accepts f)
  unfolding try_load_and_validate validate
  first_falls_back missing second q = q
  first_falls_back refused second q = q
  first_falls_back unparsed second q = q
  first_falls_back (parsed t) second q = first_or_second (accepts (parsed t)) _ second refl q

  -- Whatever the two files hold, the configuration that is returned has the required fields and is
  -- reported valid and without errors; it is the primary file's, and not reported as a fallback,
  -- exactly when the primary file is accepted.
  pub load_with_fallback-IsUsable :
      (v : ConfigValidator (ConfigFile scalars))
      → IsUsable (load_with_fallback scalars absent_parent v)
        × ((load_with_fallback scalars absent_parent v).1.used_fallback ≡ not (accepts v.primary))
  unfolding load_with_fallback safe_minimum required_errors
  load_with_fallback-IsUsable v =
      let second-IsUsable =
        either-IsUsable (exists scalars v.fallback) _ (minimum scalars)
          (λ q.
            valid_or-IsUsable v.fallback (λ r. record r { used_fallback = true }) (minimum scalars)
              (λ r. (refl, refl)) (refl, refl, refl))
          (refl, refl, refl) in
      (
        valid_or-IsUsable v.primary (λ r. r) _ (λ r. (refl, refl)) second-IsUsable,
        first_falls_back v.primary _ (
            either_falls_back (exists scalars v.fallback) _ (minimum scalars)
              (second_falls_back v.fallback) refl),
      )
