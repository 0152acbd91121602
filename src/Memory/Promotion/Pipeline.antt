-- ===== src/Memory/Promotion/Pipeline.antt =====
-- src/cee_core/memory_promotion.py: the bounded pipeline into the memory store. The state is the log with
-- the store; the ids and times that are drawn are arguments.
use cognitive_execution_engi.Prelude.{String, Bool, true, false, List, [], ◌∷◌, Option, none, some}
use cognitive_execution_engi.Value.{Value, Entries, Platform, end}
use cognitive_execution_engi.Outcome.{ok}
use cognitive_execution_engi.Exec.{Exec, return, ◌>>=◌, ◌>>◌}
use cognitive_execution_engi.World.Schema.{RevisionDelta, target_text}
use cognitive_execution_engi.Revision.{ModelRevisionEvent}
use cognitive_execution_engi.Observation.{ObservationCandidate}
use cognitive_execution_engi.EventLog.{EventLog, EventRecord}
use cognitive_execution_engi.Gateway.{log, outside}
use cognitive_execution_engi.Serial.{dict_of, texts, write_each}
use cognitive_execution_engi.Serial.Revised.{revision_kind_text}
use cognitive_execution_engi.Memory.{PrecedentMemory, MemoryStore, add_memory}
use cognitive_execution_engi.Memory.Promotion.{
  MemoryPromotionRequest, MemoryPromotionPolicyDecision, MemoryPromotionResult,
  MemoryPromotionPolicy, default_policy, evaluate, request_to_dict, build_precedent_memory,
}

-- what one promotion draws: trace ids and times of its events, the memory's id and time
pub record PromotionDraws (F : Type 0) : Type 0 where
  pub requested_trace : String
  pub requested_at : String
  pub decided_trace : String
  pub decided_at : String
  pub memory_id : String
  pub created_at : F

module _ {F : Type 0} where
  abbrev pub promotion_event : String → Entries F → String → String → EventRecord F
  promotion_event event_type payload trace_id created_at = EventRecord.event (record {
    event_type = event_type;
    payload = payload;
    trace_id = trace_id;
    created_at = created_at;
    actor = "memory_promotion";
  })

  unfoldable pub rejected_payload :
      MemoryPromotionRequest F → MemoryPromotionPolicyDecision → Entries F
  unfolding dict_of texts
  rejected_payload request decision = dict_of (
      ("request_id", Value.str request.request_id)
      ∷ ("reason", Value.str decision.reason)
      ∷ ("violated_rules", texts decision.violated_rules)
      ∷ [])

  unfoldable pub approved_payload : MemoryPromotionRequest F → String → Entries F
  unfolding dict_of
  approved_payload request memory_id = dict_of (
      ("request_id", Value.str request.request_id)
      ∷ ("memory_id", Value.str memory_id)
      ∷ ("task_signature", Value.str request.task_signature)
      ∷ ("outcome", Value.str request.outcome)
      ∷ ("domain_label", Value.str request.domain_label)
      ∷ [])

  -- `memory_store.add_memory`
  unfoldable pub store_memory : PrecedentMemory F → Exec (MemoryStore F) String
  unfolding add_memory
  store_memory m store = let (id, after) = add_memory m store in (ok id, after)

module _ {F : Type 0} ⦃p : Platform F⦄ where
  -- `policy if policy is not None else DefaultMemoryPromotionPolicy()`
  unfoldable pub effective_policy : Option (MemoryPromotionPolicy F) → MemoryPromotionPolicy F
  unfolding evaluate
  effective_policy none = evaluate default_policy
  effective_policy (some policy) = policy

  -- the branches on the decision
  unfoldable pub after_decision :
      Bool
      → PromotionDraws F
      → MemoryPromotionRequest F
      → MemoryPromotionPolicyDecision
      → Exec (EventLog F × MemoryStore F) (MemoryPromotionResult F)
  unfolding log outside rejected_payload approved_payload store_memory build_precedent_memory
  after_decision false draws request decision = do
    log (
        promotion_event "memory.promotion.rejected" (rejected_payload request decision)
          draws.decided_trace draws.decided_at)
    return
        (record { request = request; policy_decision = decision; memory = none; memory_id = none })
  after_decision true draws request decision = do
    let m = build_precedent_memory draws.memory_id draws.created_at request
    id ← outside (store_memory m)
    log (
        promotion_event "memory.promotion.approved" (approved_payload request id)
          draws.decided_trace draws.decided_at)
    return (record {
      request = request;
      policy_decision = decision;
      memory = some m;
      memory_id = some id;
    })

  -- `promote_to_memory`
  unfoldable pub promote_to_memory :
      PromotionDraws F
      → MemoryPromotionRequest F
      → Option (MemoryPromotionPolicy F)
      → Exec (EventLog F × MemoryStore F) (MemoryPromotionResult F)
  unfolding log request_to_dict effective_policy after_decision
  promote_to_memory draws request policy = do
    log (
        promotion_event "memory.promotion.requested" (request_to_dict request) draws.requested_trace
          draws.requested_at)
    let decision = effective_policy policy request
    after_decision decision.allowed draws request decision

-- what `promote_from_observation` and `promote_from_revision` are told
pub record PromotionTask (F : Type 0) : Type 0 where
  pub task_signature : String
  pub task_summary : String
  pub outcome : String
  pub evidence_refs : List String
  pub domain_label : String
  pub state_diff : Option (Entries F)

module _ {F : Type 0} where
  -- `state_diff or default`
  unfoldable pub or_default : Option (Entries F) → Entries F → Entries F
  or_default none default = default
  or_default (some end) default = default
  or_default (some d) default = d

  delta_summary : RevisionDelta F → Value F
  unfolding dict_of target_text
  delta_summary delta = Value.dict (
      dict_of (
        ("delta_id", Value.str delta.delta_id)
        ∷ ("target_kind", Value.str (target_text delta.target_kind))
        ∷ ("target_ref", Value.str delta.target_ref)
        ∷ ("before_summary", Value.str delta.before_summary)
        ∷ ("after_summary", Value.str delta.after_summary)
        ∷ []))

  -- `_state_diff_from_revision`
  unfoldable pub state_diff_from_revision : ModelRevisionEvent F → Entries F
  unfolding dict_of revision_kind_text write_each delta_summary
  state_diff_from_revision rev = dict_of (
      ("revision_id", Value.str rev.revision_id)
      ∷ ("revision_kind", Value.str (revision_kind_text rev.revision_kind))
      ∷ ("deltas", write_each delta_summary rev.deltas)
      ∷ [])

  unfoldable pub request_for :
      String
      → String
      → PromotionTask F
      → Entries F
      → Option (ObservationCandidate F)
      → Option (ModelRevisionEvent F)
      → MemoryPromotionRequest F
  request_for request_id source task default observation revision = record {
    request_id = request_id;
    source = source;
    task_signature = task.task_signature;
    task_summary = task.task_summary;
    outcome = task.outcome;
    evidence_refs = task.evidence_refs;
    domain_label = task.domain_label;
    state_diff = or_default task.state_diff default;
    approval_result = none;
    failure_mode = none;
    observation = observation;
    revision_event = revision;
    delta = none;
  }

module _ {F : Type 0} ⦃p : Platform F⦄ where
  unfoldable pub promote_from_observation :
      String
      → PromotionDraws F
      → ObservationCandidate F
      → PromotionTask F
      → Option (MemoryPromotionPolicy F)
      → Exec (EventLog F × MemoryStore F) (MemoryPromotionResult F)
  unfolding request_for or_default
  promote_from_observation request_id draws observation task policy =
      promote_to_memory draws
        (request_for request_id "observation" task end (some observation) none) policy

  unfoldable pub promote_from_revision :
      String
      → PromotionDraws F
      → ModelRevisionEvent F
      → PromotionTask F
      → Option (MemoryPromotionPolicy F)
      → Exec (EventLog F × MemoryStore F) (MemoryPromotionResult F)
  unfolding request_for or_default state_diff_from_revision
  promote_from_revision request_id draws revision task policy =
      promote_to_memory draws
        (request_for request_id "revision" task (state_diff_from_revision revision) none
          (some revision))
        policy
