-- ===== src/Schemas/Versions.antt =====
-- Which payloads pass the version check.
use cognitive_execution_engi.Prelude.{
  read_int, not, ◌&&◌, ◌||◌, String, ◌≡◌, ◌↔◌, refl, ◌==◌, Bool, true, false, Option, none, some,
  arith, ◌<>◌, ℤ, if◌then◌else◌,
}
use cognitive_execution_engi.Value.{Value, Entries, get}
use cognitive_execution_engi.Outcome.{Outcome, ok, raise, value_error, ◌>>=◌}
use cognitive_execution_engi.Schemas.{
  require_schema_version, check_version, missing_version, wrong_version, extract_major, major_of,
  after_last_v, before_dot, same_int,
}

-- no error but a value error
abbrev pub only_value_error : {A : Type 0} → Outcome A → Bool
only_value_error (ok a) = true
only_value_error (raise (value_error s)) = true
only_value_error (raise _) = false

only_value_error-bind :
    {A B : Type 0} (m : Outcome A) (f : A → Outcome B)
    → only_value_error m ≡ true
    → ((a : A) → only_value_error (f a) ≡ true)
    → only_value_error (m >>= f) ≡ true
only_value_error-bind (ok a) f h k = k a
only_value_error-bind (raise (value_error s)) f h k = refl
only_value_error-bind (raise _) f h k = h

only_value_error-major_of :
    (version : String) (z : Option ℤ) → only_value_error (major_of version z) ≡ true
unfolding major_of
only_value_error-major_of version none = refl
only_value_error-major_of version (some z) = refl

only_value_error-major : (version : String) → only_value_error (extract_major version) ≡ true
unfolding extract_major
only_value_error-major version = go (after_last_v version)
  where
    go :
        (suffix : Option String)
        → only_value_error (elim suffix [
          | none ↦ raise (value_error ("Invalid schema_version format: " <> version))
          | some s ↦ major_of version (read_int (before_dot s))
        ])
          ≡ true
    go none = refl
    go (some s) = only_value_error-major_of version (read_int (before_dot s))

-- a wrong version is refused, with a value error
wrong_version-raise :
    (actual expected : String)
    → (only_value_error (wrong_version actual expected) ≡ true)
      × ¬ (wrong_version actual expected ≡ ok tt)
unfolding wrong_version
wrong_version-raise actual expected = (
  only_value_error-bind (extract_major actual) _ (only_value_error-major actual) (λ a.
      only_value_error-bind (extract_major expected) _ (only_value_error-major expected)
        (λ b. ground arith)),
  never (extract_major actual) (extract_major expected),
)
  where
    never :
        (a b : Outcome ℤ)
        → ¬ (
            (a >>= λ x. b >>= λ y.
            if same_int x y
            then raise (
                value_error ("Unsupported schema version: " <> actual <> "; expected " <> expected))
            else raise (
                value_error
                  ("Unsupported schema major version: " <> actual <> "; expected " <> expected)))
            ≡ ok tt)
    never (ok x) (ok y) h = ground arith
    never (raise e) b h = cc
    never (ok x) (raise e) h = cc

-- the version that a payload states, where `null` states none
abbrev pub is_unstated : {F : Type 0} → Option (Value F) → Bool
is_unstated none = true
is_unstated (some Value.null) = true
is_unstated _ = false

abbrev pub is_text : {F : Type 0} → String → Option (Value F) → Bool
is_text s (some (Value.str t)) = t == s
is_text s _ = false

module _ {F : Type 0} where
  check_version_lem :
      (v : Option (Value F)) (expected : String) (required : Bool)
      → ((check_version v expected required ≡ ok tt)
          ↔ ((is_text expected v || is_unstated v && not required) ≡ true))
        × (only_value_error (check_version v expected required) ≡ true)
  unfolding check_version missing_version
  check_version_lem none expected true = ((λ h. cc, λ h. cc), refl)
  check_version_lem none expected false = ((λ h. refl, λ h. refl), refl)
  check_version_lem (some Value.null) expected true = ((λ h. cc, λ h. cc), refl)
  check_version_lem (some Value.null) expected false = ((λ h. refl, λ h. refl), refl)
  check_version_lem (some (Value.str actual)) expected required =
      let (only, never) = wrong_version-raise actual expected in
      ((ground (arith, never), ground arith), ground (arith, only))
  check_version_lem (some _) expected required = ((λ h. cc, λ h. cc), refl)

  -- A payload passes the version check exactly if it states the expected version, or states none and
  -- none is required; every other payload is refused with a value error.
  pub require_schema_version_lem :
      (payload : Entries F) (expected : String) (required : Bool)
      → let stated = get "schema_version" payload in
        ((require_schema_version payload expected required ≡ ok tt)
          ↔ ((is_text expected stated || is_unstated stated && not required) ≡ true))
        × (only_value_error (require_schema_version payload expected required) ≡ true)
  unfolding require_schema_version
  require_schema_version_lem payload expected required =
      check_version_lem (get "schema_version" payload) expected required
