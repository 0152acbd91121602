-- ===== src/Serial/Spec.antt =====
-- src/cee_core/tasks.py: `TaskSpec` as a payload.
use cognitive_execution_engi.Prelude.{
  String, ◌≡◌, refl, [], ◌∷◌, true, false, Bool, ◌==◌, if◌then◌else◌,
}
use cognitive_execution_engi.Value.{Value, Entries, Platform, nil}
use cognitive_execution_engi.Outcome.{Outcome, ok, ◌>>=◌}
use cognitive_execution_engi.Schemas.{require_schema_version}
use cognitive_execution_engi.Serial.{
  dict_of, required, optional, as_text, as_texts, texts, as_texts-texts, str_of,
}
use cognitive_execution_engi.Task.{
  TaskSpec, TaskKind, RiskLevel, kind_text, level_text, other_task, other_level, analysis,
  state_update, low, medium, high,
}
use cognitive_execution_engi.Primitives.{
  validate_primitives, validate_primitives-known, known_primitives,
}
use cognitive_execution_engi.Schemas.{task_schema_version}

-- the kind with the given text
unfoldable pub task_kind_of : String → TaskKind
task_kind_of s =
    if s == "analysis" then analysis else if s == "state_update" then state_update else other_task s

-- one that the source lists
abbrev pub listed_task : TaskKind → Bool
listed_task (other_task s) = false
listed_task _ = true

pub task_kind_of-kind_text : (k : TaskKind) → listed_task k ≡ true → task_kind_of (kind_text k) ≡ k
unfolding task_kind_of kind_text
task_kind_of-kind_text (other_task s) h = absurd (cc)
task_kind_of-kind_text analysis h = refl
task_kind_of-kind_text state_update h = refl

-- the risk level with the given text
unfoldable pub level_of : String → RiskLevel
level_of s =
    if s == "low"
    then low
    else if s == "medium"
    then medium
    else if s == "high"
    then high
    else other_level s

-- one that the source lists
abbrev pub listed_level : RiskLevel → Bool
listed_level (other_level s) = false
listed_level _ = true

pub level_of-level_text : (k : RiskLevel) → listed_level k ≡ true → level_of (level_text k) ≡ k
unfolding level_of level_text
level_of-level_text (other_level s) h = absurd (cc)
level_of-level_text low h = refl
level_of-level_text medium h = refl
level_of-level_text high h = refl

module _ {F : Type 0} where
  unfoldable pub as_task_kind : Value F → Outcome TaskKind
  unfolding as_text task_kind_of
  as_task_kind v = do s ← as_text v; ok (task_kind_of s)

module _ {F : Type 0} where
  unfoldable pub as_level : Value F → Outcome RiskLevel
  unfolding as_text level_of
  as_level v = do s ← as_text v; ok (level_of s)

module _ {F : Type 0} where
  unfoldable pub to_dict : TaskSpec → Entries F
  unfolding dict_of texts kind_text level_text
  to_dict r = dict_of (
      ("schema_version", Value.str task_schema_version)
      ∷ ("task_id", Value.str r.task_id)
      ∷ ("domain_name", Value.str r.domain_name)
      ∷ ("objective", Value.str r.objective)
      ∷ ("kind", Value.str (kind_text r.kind))
      ∷ ("risk_level", Value.str (level_text r.risk_level))
      ∷ ("task_level", Value.str r.task_level)
      ∷ ("success_criteria", texts r.success_criteria)
      ∷ ("requested_primitives", texts r.requested_primitives)
      ∷ ("raw_input", Value.str r.raw_input)
      ∷ [])

module _ {F : Type 0} ⦃p : Platform F⦄ where
  unfoldable pub from_dict : Entries F → Outcome (TaskSpec)
  unfolding require_schema_version required optional as_text as_texts str_of as_task_kind as_level
  from_dict payload = do
    checked ← require_schema_version payload task_schema_version true
    task_id ← required "task_id" payload
    let domain_name = optional "domain_name" (Value.str "core") payload
    objective ← required "objective" payload
    kind ← required "kind" payload >>= as_task_kind
    risk_level ← as_level (optional "risk_level" (Value.str "low") payload)
    task_level ← as_text (optional "task_level" (Value.str "L1") payload)
    success_criteria ← as_texts (optional "success_criteria" (Value.tuple nil) payload)
    requested_primitives ←
        as_texts (optional "requested_primitives" (Value.tuple nil) payload) >>= validate_primitives
    let raw_input = optional "raw_input" (Value.str "") payload
    ok (record {
      task_id = str_of task_id;
      domain_name = str_of domain_name;
      objective = str_of objective;
      kind = kind;
      risk_level = risk_level;
      task_level = task_level;
      success_criteria = success_criteria;
      requested_primitives = requested_primitives;
      raw_input = str_of raw_input;
    })

-- A task that is written as a payload is read back, provided that its kind and its risk level are
-- ones that the source lists, and its primitives are known.
pub task_back :
    (F : Type 0) ⦃p : Platform F⦄ (r : TaskSpec)
    → listed_task r.kind ≡ true
    → listed_level r.risk_level ≡ true
    → known_primitives r.requested_primitives ≡ true
    → from_dict (to_dict {F = F} r) ≡ ok r
unfolding from_dict to_dict require_schema_version required optional dict_of as_text str_of
    as_task_kind as_level
task_back F r h k known =
    rw
      (
        task_kind_of-kind_text r.kind h,
        level_of-level_text r.risk_level k,
        as_texts-texts F r.success_criteria,
        as_texts-texts F r.requested_primitives,
        validate_primitives-known r.requested_primitives known,
      )
      refl
