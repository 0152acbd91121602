-- ===== src/Memory/Promotion.antt =====
-- src/cee_core/memory_promotion.py: the requests, the default policy on them, and the memory that a
-- request becomes. `Pipeline` has the promotion itself; the proofs are in `Policy` and `Store`.
pub mod Policy
pub mod Pipeline
pub mod Store
use cognitive_execution_engi.Prelude.{
  ℕ, suc, String, ◌==◌, ◌<>◌, ◌||◌, not, Bool, true, false, List, [], ◌∷◌, ◌++◌, Option, none, some,
  truthy, all_spaces, show, ltb, contains, if◌then◌else◌,
}
use cognitive_execution_engi.Value
use cognitive_execution_engi.Value.{Value, Entries, Platform, end, of_list}
use cognitive_execution_engi.Outcome.{ok}
use cognitive_execution_engi.Exec.{Exec, return, ◌>>=◌, ◌>>◌}
use cognitive_execution_engi.World.Schema.{RevisionDelta, target_text}
use cognitive_execution_engi.Revision.{ModelRevisionEvent}
use cognitive_execution_engi.Observation.{ObservationCandidate, first_chars}
use cognitive_execution_engi.EventLog.{EventLog, EventRecord, Event}
use cognitive_execution_engi.Gateway.{log, outside}
use cognitive_execution_engi.Serial.{dict_of, texts, str_of, write_each}
use cognitive_execution_engi.Serial.Revised.{revision_kind_text}
use cognitive_execution_engi.Memory.{PrecedentMemory, MemoryStore, add_memory, text_or_null}

pub record MemoryPromotionRequest (F : Type 0) : Type 0 where
  pub request_id : String
  pub source : String
  pub task_signature : String
  pub task_summary : String
  pub outcome : String
  pub evidence_refs : List String
  pub domain_label : String
  pub state_diff : Entries F
  pub approval_result : Option String
  pub failure_mode : Option String
  pub observation : Option (ObservationCandidate F)
  pub revision_event : Option (ModelRevisionEvent F)
  pub delta : Option (RevisionDelta F)

pub record MemoryPromotionPolicyDecision : Type 0 where
  pub allowed : Bool
  pub reason : String
  pub violated_rules : List String

pub record MemoryPromotionResult (F : Type 0) : Type 0 where
  pub request : MemoryPromotionRequest F
  pub policy_decision : MemoryPromotionPolicyDecision
  pub memory : Option (PrecedentMemory F)
  pub memory_id : Option String

-- `evaluate` of the protocol
abbrev pub MemoryPromotionPolicy : Type 0 → Type 0
MemoryPromotionPolicy F = MemoryPromotionRequest F → MemoryPromotionPolicyDecision

pub record DefaultMemoryPromotionPolicy (F : Type 0) : Type 0 where
  pub max_state_diff_size : ℕ
  pub min_confidence : F
  pub min_evidence_weight : F

module _ {F : Type 0} where
  observation_entries : Option (ObservationCandidate F) → List (String × Value F)
  observation_entries none = []
  observation_entries (some o) =
      ("observation_call_id", Value.str o.call_id)
      ∷ ("observation_tool", Value.str o.source_tool)
      ∷ []

  revision_entries : Option (ModelRevisionEvent F) → List (String × Value F)
  revision_entries none = []
  revision_entries (some rev) = ("revision_id", Value.str rev.revision_id) ∷ []

  -- `MemoryPromotionRequest.to_dict`
  unfoldable pub request_to_dict : MemoryPromotionRequest F → Entries F
  unfolding dict_of texts observation_entries revision_entries
  request_to_dict r = dict_of (
      (("request_id", Value.str r.request_id)
        ∷ ("source", Value.str r.source)
        ∷ ("task_signature", Value.str r.task_signature)
        ∷ ("task_summary", Value.str r.task_summary)
        ∷ ("outcome", Value.str r.outcome)
        ∷ ("evidence_refs", texts r.evidence_refs)
        ∷ ("domain_label", Value.str r.domain_label)
        ∷ ("approval_result", text_or_null r.approval_result)
        ∷ ("failure_mode", text_or_null r.failure_mode)
        ∷ [])
      ++ (observation_entries r.observation ++ revision_entries r.revision_event))

-- `DefaultMemoryPromotionPolicy()`
abbrev pub default_policy : {F : Type 0} ⦃p : Platform F⦄ → DefaultMemoryPromotionPolicy F
default_policy ⦃p⦄ = record {
  max_state_diff_size = 10000;
  min_confidence = p.decimal 1 1;
  min_evidence_weight = p.decimal 1 1;
}

abbrev pub outcomes : List String
outcomes = "success" ∷ "failure" ∷ "partial_success" ∷ []

abbrev pub sources : List String
sources = "observation" ∷ "revision" ∷ "belief" ∷ "llm_proposal" ∷ []

-- `len(text)`
unfoldable pub text_length : String → ℕ
text_length String.[] = 0
text_length (String.◌∷◌ c s) = suc (text_length s)

-- the rule, if it is violated
abbrev pub violation : Bool → String → List String
violation violated rule = if violated then rule ∷ [] else []

module _ {F : Type 0} where
  unfoldable pub unjustified : List (RevisionDelta F) → List String
  unjustified [] = []
  unjustified (delta ∷ deltas) =
      violation (all_spaces delta.justification) ("delta_without_justification:" <> delta.delta_id)
      ++ unjustified deltas

  unfoldable pub revision_violations : Option (ModelRevisionEvent F) → List String
  unfolding unjustified
  revision_violations none = []
  revision_violations (some rev) = unjustified rev.deltas

decide : List String → MemoryPromotionPolicyDecision
decide [] = record {
  allowed = true;
  reason = "memory promotion policy satisfied";
  violated_rules = [];
}
decide (rule ∷ rules) = record {
  allowed = false;
  reason = "memory promotion policy violated";
  violated_rules = rule ∷ rules;
}

module _ {F : Type 0} ⦃p : Platform F⦄ where
  unfoldable pub observation_violations :
      DefaultMemoryPromotionPolicy F → Option (ObservationCandidate F) → List String
  observation_violations policy none = []
  observation_violations policy (some o) =
      violation (p.lt o.confidence policy.min_confidence)
        ("insufficient_confidence:" <> p.text (Value.float o.confidence))
      ++ violation (p.lt o.evidence_weight policy.min_evidence_weight)
          ("insufficient_evidence_weight:" <> p.text (Value.float o.evidence_weight))

  -- `len(json.dumps(state_diff, default=str))`
  abbrev pub diff_size : MemoryPromotionRequest F → ℕ
  diff_size request = text_length (p.dumps (Value.dict request.state_diff))

  unfoldable pub all_violations :
      DefaultMemoryPromotionPolicy F → MemoryPromotionRequest F → List String
  unfolding text_length observation_violations revision_violations
  all_violations policy request =
      violation (all_spaces request.task_signature) "empty_task_signature"
      ++ (violation (not (contains request.outcome outcomes))
            ("invalid_outcome:" <> request.outcome)
          ++ (violation (not (contains request.source sources))
                ("invalid_source:" <> request.source)
              ++ (violation (ltb policy.max_state_diff_size (diff_size request))
                    ("state_diff_too_large:" <> show (diff_size request))
                  ++ (observation_violations policy request.observation
                      ++ revision_violations request.revision_event))))

  -- `DefaultMemoryPromotionPolicy.evaluate`
  unfoldable pub evaluate : DefaultMemoryPromotionPolicy F → MemoryPromotionPolicy F
  unfolding all_violations decide
  evaluate policy request = decide (all_violations policy request)

  -- the summary, if it is not empty, else that of the observation, or of the revision
  summary_from : Option (ObservationCandidate F) → Option (ModelRevisionEvent F) → String
  unfolding first_chars str_of
  summary_from (some o) rev = first_chars 200 (str_of o.content)
  summary_from none (some rev) = first_chars 200 rev.revision_summary
  summary_from none none = ""

  -- `_build_precedent_memory`, with the drawn id and time
  unfoldable pub build_precedent_memory : String → F → MemoryPromotionRequest F → PrecedentMemory F
  unfolding summary_from
  build_precedent_memory drawn_id now request = record {
    task_signature = request.task_signature;
    state_diff = request.state_diff;
    evidence_refs = request.evidence_refs;
    outcome = request.outcome;
    memory_id = drawn_id;
    failure_mode = request.failure_mode;
    approval_result = request.approval_result;
    semantic_vector = none;
    domain_label = request.domain_label;
    task_summary =
        if truthy request.task_summary
        then request.task_summary
        else summary_from request.observation request.revision_event;
    created_at = now;
  }
