-- ===== src/Schemas.antt =====
-- src/cee_core/schemas.py: the version constants and the check of a payload's schema version. The
-- proofs are in `Versions`.
pub mod Versions
use cognitive_execution_engi.Prelude.{
  ℕ, String, ◌==◌, Bool, true, false, Option, none, some, ◌<>◌, eqb, ℤ, pos, negsuc, read_int,
  strip_prefix, if◌then◌else◌,
}
use Prim.Native.Char.{code}
use cognitive_execution_engi.Value
use cognitive_execution_engi.Value.{Value, Entries, get}
use cognitive_execution_engi.Outcome.{Outcome, ok, raise, ◌>>=◌, value_error}

abbrev pub task_schema_version : String
task_schema_version = "cee.task.v1"

abbrev pub plan_schema_version : String
plan_schema_version = "cee.plan.v1"

abbrev pub reasoning_step_schema_version : String
reasoning_step_schema_version = "cee.reasoning_step.v1"

abbrev pub deliberation_event_schema_version : String
deliberation_event_schema_version = "cee.deliberation_event.v1"

abbrev pub commitment_policy_schema_version : String
commitment_policy_schema_version = "cee.commitment_policy.v1"

-- the text behind the last `.v`, if there is one
after_last_v : String → Option String
unfolding strip_prefix
after_last_v String.[] = none
after_last_v (String.◌∷◌ c s) =
    let rest = after_last_v s in
    let here = strip_prefix ".v" (String.◌∷◌ c s) in
    elim rest [ some tail ↦ some tail | none ↦ here ]

-- `s.split(".", 1)[0]`
before_dot : String → String
before_dot String.[] = String.[]
before_dot (String.◌∷◌ c s) =
    let rest = before_dot s in if eqb (code c) 46 then String.[] else String.◌∷◌ c rest

major_of : String → Option ℤ → Outcome ℤ
major_of version none = raise (value_error ("Invalid schema_version format: " <> version))
major_of version (some z) = ok z

-- `_extract_major`
unfoldable pub extract_major : String → Outcome ℤ
unfolding after_last_v before_dot read_int major_of
extract_major version = elim (after_last_v version) [
  | none ↦ raise (value_error ("Invalid schema_version format: " <> version))
  | some suffix ↦ major_of version (read_int (before_dot suffix))
]

abbrev same_int : ℤ → ℤ → Bool
same_int (pos m) (pos n) = eqb m n
same_int (negsuc m) (negsuc n) = eqb m n
same_int _ _ = false

missing_version : Bool → String → Outcome (Unit {0})
missing_version true expected =
    raise (value_error ("Missing schema_version; expected " <> expected))
missing_version false expected = ok tt

-- a version that is not the expected one
wrong_version : String → String → Outcome (Unit {0})
unfolding extract_major
wrong_version actual expected = do
  actual_major ← extract_major actual
  expected_major ← extract_major expected
  if same_int actual_major expected_major
      then raise
          (value_error ("Unsupported schema version: " <> actual <> "; expected " <> expected))
      else raise (
          value_error ("Unsupported schema major version: " <> actual <> "; expected " <> expected))

module _ {F : Type 0} where
  check_version : Option (Value F) → String → Bool → Outcome (Unit {0})
  unfolding missing_version wrong_version
  check_version none expected required = missing_version required expected
  check_version (some Value.null) expected required = missing_version required expected
  check_version (some (Value.str actual)) expected required =
      let wrong = wrong_version actual expected in if actual == expected then ok tt else wrong
  check_version (some _) expected required = raise (value_error "schema_version must be a string")

  unfoldable pub require_schema_version : Entries F → String → Bool → Outcome (Unit {0})
  unfolding get check_version
  require_schema_version payload expected required =
      check_version (get "schema_version" payload) expected required
