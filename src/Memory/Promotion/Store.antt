-- ===== src/Memory/Promotion/Store.antt =====
-- src/cee_core/memory_promotion.py: what a promotion leaves in the log and in the store.
use cognitive_execution_engi.Prelude.{
  String, ◌≡◌, refl, ap, ◌∙◌, Bool, true, false, [], ◌∷◌, ◌++◌, Option, none, some, arith,
  if◌then◌else◌,
}
use cognitive_execution_engi.Value.{Platform, end}
use cognitive_execution_engi.Outcome.{ok}
use cognitive_execution_engi.Observation.{ObservationCandidate}
use cognitive_execution_engi.EventLog.{EventLog, EventRecord}
use cognitive_execution_engi.Gateway.{log, outside}
use cognitive_execution_engi.Gateway.Records.{two}
use cognitive_execution_engi.Memory.Promotion.Policy.{is_strong, evaluate_promotion_allows}
use cognitive_execution_engi.Memory.{MemoryStore, PrecedentMemory, add_memory}
use cognitive_execution_engi.Memory.Promotion.{
  MemoryPromotionRequest, MemoryPromotionPolicy, MemoryPromotionPolicyDecision, request_to_dict,
  build_precedent_memory, default_policy, evaluate,
}
use cognitive_execution_engi.Memory.Promotion.Pipeline.{
  PromotionDraws, PromotionTask, request_for, promote_from_observation, promotion_event,
  rejected_payload, approved_payload, store_memory, effective_policy, after_decision,
  promote_to_memory,
}

module _ {F : Type 0} ⦃p : Platform F⦄ where
  -- the memory of an approved request
  abbrev pub memory_of : PromotionDraws F → MemoryPromotionRequest F → PrecedentMemory F
  memory_of draws request = build_precedent_memory draws.memory_id draws.created_at request

  -- the event that records the decision
  abbrev pub decision_event :
      Bool
      → PromotionDraws F
      → MemoryPromotionRequest F
      → MemoryPromotionPolicyDecision
      → EventRecord F
  decision_event true draws request decision =
      promotion_event "memory.promotion.approved" (approved_payload request draws.memory_id)
        draws.decided_trace draws.decided_at
  decision_event false draws request decision =
      promotion_event "memory.promotion.rejected" (rejected_payload request decision)
        draws.decided_trace draws.decided_at

  after_decision_lem :
      (b : Bool) (draws : PromotionDraws F) (request : MemoryPromotionRequest F)
      (decision : MemoryPromotionPolicyDecision) (es : EventLog F) (store : MemoryStore F)
      → let m = memory_of draws request in
        after_decision b draws request decision (es, store) ≡ (
          ok (record {
            request = request;
            policy_decision = decision;
            memory = if b then some m else none;
            memory_id = if b then some draws.memory_id else none;
          }),
          (
            es ++ decision_event b draws request decision ∷ [],
            if b then (add_memory m store).1 else store,
          ),
        )
  unfolding after_decision log outside store_memory add_memory build_precedent_memory
  after_decision_lem true draws request decision es store = refl
  after_decision_lem false draws request decision es store = refl

  -- A promotion returns, under any policy, and records two events: the request, and the decision. A
  -- memory enters the store exactly if the policy allows the request, and it is the one built from the
  -- request; otherwise the store is as before.
  pub promote_to_memory-decides :
      (draws : PromotionDraws F) (request : MemoryPromotionRequest F)
      (policy : Option (MemoryPromotionPolicy F)) (es : EventLog F) (store : MemoryStore F)
      → let decision = effective_policy policy request in
        let m = memory_of draws request in
        promote_to_memory draws request policy (es, store) ≡ (
          ok (record {
            request = request;
            policy_decision = decision;
            memory = if decision.allowed then some m else none;
            memory_id = if decision.allowed then some draws.memory_id else none;
          }),
          (
            es
                ++ promotion_event "memory.promotion.requested"
                    (request_to_dict request)
                    draws.requested_trace
                    draws.requested_at
                  ∷ decision_event decision.allowed draws request decision
                  ∷ [],
            if decision.allowed then (add_memory m store).1 else store,
          ),
        )
  unfolding promote_to_memory log
  promote_to_memory-decides draws request policy es store =
      after_decision_lem _ draws request (effective_policy policy request) (es ++ _ ∷ []) store
      ∙ two _ _ es _ _

  -- An observation whose confidence or evidence weight is below the threshold of the default policy never
  -- changes the store.
  pub promote_from_observation-weak :
      (request_id : String) (draws : PromotionDraws F) (o : ObservationCandidate F)
      (task : PromotionTask F) (es : EventLog F) (store : MemoryStore F)
      → is_strong default_policy (some o) ≡ false
      → (promote_from_observation request_id draws o task none (es, store)).1.1 ≡ store
  unfolding promote_from_observation request_for effective_policy
  promote_from_observation-weak request_id draws o task es store weak =
      let request = request_for request_id "observation" task end (some o) none in
      let denied : (evaluate default_policy request).allowed ≡ false =
        evaluate_promotion_allows default_policy request ∙ ground (arith, weak) in
      ap (λ r. r.1.1) (promote_to_memory-decides draws request none es store)
      ∙ ap (λ b. if b then (add_memory (memory_of draws request) store).1 else store) denied
