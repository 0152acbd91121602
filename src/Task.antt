-- ===== src/Task.antt =====
-- src/cee_core/tasks.py: the structured task, and the search for phrases in its lower-case objective.
-- `Compile` has the compilation of raw text, and `Compiled` the proofs on it.
-- The phrases are of ASCII letters, to which `lower` takes the ASCII capitals and the Kelvin sign
-- (8490), or have no capitals; the capital I with a dot becomes an `i` with a combining dot, with
-- which no phrase ends.
pub mod Compile
pub mod Compiled
use cognitive_execution_engi.Prelude.{
  ℕ, ◌+◌, String, Bool, true, false, ◌&&◌, ◌||◌, List, [], ◌∷◌, eqb, leb, if◌then◌else◌, any,
}
use Prim.Native.Char.{code}

pub data TaskKind : Type 0 where
  analysis state_update : TaskKind
  other_task : String → TaskKind

pub data RiskLevel : Type 0 where
  low medium high : RiskLevel
  other_level : String → RiskLevel

pub record TaskSpec : Type 0 where
  pub objective : String
  pub kind : TaskKind
  pub success_criteria : List String
  pub requested_primitives : List String
  pub risk_level : RiskLevel
  pub task_level : String
  pub task_id : String
  pub raw_input : String
  pub domain_name : String

unfoldable pub kind_text : TaskKind → String
kind_text analysis = "analysis"
kind_text state_update = "state_update"
kind_text (other_task s) = s

unfoldable pub level_text : RiskLevel → String
level_text low = "low"
level_text medium = "medium"
level_text high = "high"
level_text (other_level s) = s

-- `risk_level != "low"`
abbrev pub is_risky : RiskLevel → Bool
is_risky low = false
is_risky _ = true

abbrev pub is_analysis : TaskKind → Bool
is_analysis analysis = true
is_analysis _ = false

abbrev lower_code : ℕ → ℕ
lower_code c = if leb 65 c && leb c 90 then c + 32 else if eqb c 8490 then 107 else c

-- `s.lower().startswith(p)`
begins_lower : String → String → Bool
begins_lower String.[] s = true
begins_lower (String.◌∷◌ c p) String.[] = false
begins_lower (String.◌∷◌ c p) (String.◌∷◌ d s) =
    eqb (code c) (lower_code (code d)) && begins_lower p s

-- `p in s.lower()`
unfoldable pub occurs_lower : String → String → Bool
unfolding begins_lower
occurs_lower p String.[] = begins_lower p String.[]
occurs_lower p (String.◌∷◌ c s) = begins_lower p (String.◌∷◌ c s) || occurs_lower p s

-- the phrases that ask for documentation
abbrev pub doc_tokens : List String
doc_tokens = "read docs" ∷ "read documentation" ∷ "search docs" ∷ "search documentation" ∷ []

unfoldable pub asks_for_docs : TaskSpec → Bool
unfolding occurs_lower
asks_for_docs task =
    is_analysis task.kind && any (λ token. occurs_lower token task.objective) doc_tokens
