-- ===== src/Gateway/Run.antt =====
-- src/cee_core/tool_gateway.py: `ToolGateway.execute` and `execute_batch`. The test of a status or of
-- a verdict is a helper by clauses.
use cognitive_execution_engi.Prelude.{
  ℕ, ◌+◌, String, ◌==◌, Bool, true, false, List, [], ◌∷◌, Option, none, some, ◌<>◌, show, length,
  if◌then◌else◌,
}
use cognitive_execution_engi.Value.{Platform}
use cognitive_execution_engi.Outcome.{ok}
use cognitive_execution_engi.Exec.{Exec, return, lift, ◌>>=◌, ◌>>◌}
use cognitive_execution_engi.World.Schema.{RevisionDelta}
use cognitive_execution_engi.Commitment.{CommitmentEvent, tool_contact, blank, complete_commitment}
use cognitive_execution_engi.Revision.{ModelRevisionEvent, expansion}
use cognitive_execution_engi.DeltaPolicy.{evaluate_delta_policy}
use cognitive_execution_engi.Planner.{takes_effect}
use cognitive_execution_engi.Tools.{
  ToolCallSpec, ToolPolicyDecision, ToolVerdict, allow, deny, requires_approval, ToolResultEvent,
  ToolStatus, succeeded, failed, evaluate_tool_call_policy,
}
use cognitive_execution_engi.Approval.{ApprovalDecision, is_approved, to_event}
use cognitive_execution_engi.Observation.{
  ObservationCandidate, observation_from_tool_result, build_observation_event,
  promote_observation_to_delta,
}
use cognitive_execution_engi.EventLog.{EventLog, EventRecord, revision_events}
use cognitive_execution_engi.Gateway.{
  ToolGateway, ToolGatewayResult, Draws, log, outside, check_approval, execute_handler,
  record_denied, record_approval_denied,
}

-- what the end of an execution adds to its result
pub record Yield (F : Type 0) : Type 0 where
  pub observation : Option (ObservationCandidate F)
  pub promotion_delta : Option (RevisionDelta F)
  pub revision_event : Option (ModelRevisionEvent F)

module _ {F : Type 0} ⦃p : Platform F⦄ where
  -- the commitment of a call, from the given state
  unfoldable pub contact_event : ToolCallSpec F → String → CommitmentEvent F
  contact_event call state_id =
      record (blank ("ce_" <> call.call_id) state_id tool_contact
        ("Execute tool: " <> call.tool_name)) { action_summary = call.tool_name }

  unfoldable pub completed : ToolCallSpec F → String → ToolResultEvent F → CommitmentEvent F
  unfolding complete_commitment contact_event
  completed call state_id tool_result = elim tool_result.status [
    | succeeded ↦
        complete_commitment (contact_event call state_id) true
          ("Tool " <> call.tool_name <> " succeeded") (("result from " <> call.tool_name) ∷ [])
          (p.decimal 0 0)
    | failed ↦
        complete_commitment (contact_event call state_id) false tool_result.error_message []
          (p.decimal 0 0)
  ]

module _ {F W : Type 0} where
  -- how many revisions the log has
  unfoldable pub revision_count : Exec (EventLog F × W) ℕ
  unfolding revision_events
  revision_count (es, w) = (ok (length (revision_events es)), (es, w))

module _ {F : Type 0} where
  unfoldable pub promotion_event :
      ToolCallSpec F → String → String → RevisionDelta F → ℕ → ModelRevisionEvent F
  promotion_event call state_id commitment_id delta count = record {
    revision_id = "rev_" <> call.call_id;
    prior_state_id = state_id;
    caused_by_event_id = commitment_id;
    revision_kind = expansion;
    deltas = delta ∷ [];
    discarded_hypothesis_ids = [];
    strengthened_hypothesis_ids = [];
    new_anchor_fact_summaries = [];
    resulting_state_id = "ws_" <> show (count + 1);
    revision_summary = "Promote observation from " <> call.tool_name;
  }

module _ {F W : Type 0} ⦃p : Platform F⦄ where
  -- a delta that takes effect becomes a revision
  unfoldable pub log_promotion :
      Bool
      → ToolCallSpec F
      → String
      → RevisionDelta F
      → Exec (EventLog F × W) (Option (ModelRevisionEvent F))
  unfolding contact_event revision_count promotion_event log
  log_promotion false call state_id delta = return none
  log_promotion true call state_id delta = do
    count ← revision_count
    let rev = promotion_event call state_id (contact_event call state_id).event_id delta count
    log (EventRecord.revision rev)
    return (some rev)

  -- the promotion of the observation, if a key is given
  unfoldable pub promote :
      Option String
      → ToolCallSpec F
      → String
      → ObservationCandidate F
      → Exec (EventLog F × W) (Yield F)
  unfolding log_promotion
  promote none call state_id observation =
      return
        (record { observation = some observation; promotion_delta = none; revision_event = none })
  promote (some key) call state_id observation = do
    delta ← lift (promote_observation_to_delta observation key)
    rev ← log_promotion (takes_effect (evaluate_delta_policy delta)) call state_id delta
    return (record {
      observation = some observation;
      promotion_delta = some delta;
      revision_event = rev;
    })

  -- the two branches on the status of the tool result
  unfoldable pub conclude :
      ToolStatus
      → Option String
      → ToolCallSpec F
      → String
      → ToolResultEvent F
      → Exec (EventLog F × W) (Yield F)
  unfolding log completed promote
  conclude succeeded key call state_id tool_result = do
    observation ← lift (observation_from_tool_result tool_result)
    log (EventRecord.observation (build_observation_event observation "observation_boundary"))
    log (EventRecord.commitment (completed call state_id tool_result))
    promote key call state_id observation
  conclude failed key call state_id tool_result = do
    log (EventRecord.commitment (completed call state_id tool_result))
    return (record { observation = none; promotion_delta = none; revision_event = none })

  unfoldable pub log_approval : Option (ApprovalDecision F) → Exec (EventLog F × W) (Unit {0})
  unfolding log
  log_approval none = return tt
  log_approval (some decision) = log (EventRecord.approval (to_event decision))

  -- the execution of a call that may run
  unfoldable pub contact :
      ToolGateway F W
      → Option String
      → String
      → ToolCallSpec F
      → ToolPolicyDecision
      → Option (ApprovalDecision F)
      → Exec (EventLog F × W) (ToolGatewayResult F)
  unfolding contact_event log log_approval outside execute_handler conclude
  contact gateway key state_id call decision approval = do
    log (EventRecord.commitment (contact_event call state_id))
    log_approval approval
    tool_result ← outside (execute_handler gateway call)
    log (EventRecord.tool_result tool_result)
    yield ← conclude tool_result.status key call state_id tool_result
    return (record {
      call = call;
      policy_decision = decision;
      commitment_event = some (contact_event call state_id);
      tool_result = tool_result;
      observation = yield.observation;
      promotion_delta = yield.promotion_delta;
      revision_event = yield.revision_event;
      approval_decision = approval;
      approved = true;
    })

  unfoldable pub after_approval :
      Bool
      → ToolGateway F W
      → Option String
      → String
      → ToolCallSpec F
      → ToolPolicyDecision
      → ApprovalDecision F
      → Exec (EventLog F × W) (ToolGatewayResult F)
  unfolding contact record_approval_denied
  after_approval false gateway key state_id call decision approval =
      record_approval_denied call decision approval
  after_approval true gateway key state_id call decision approval =
      contact gateway key state_id call decision (some approval)

  -- the tests on the verdict
  unfoldable pub execute_verdict :
      ToolVerdict
      → Draws
      → ToolGateway F W
      → Option String
      → String
      → ToolCallSpec F
      → ToolPolicyDecision
      → Exec (EventLog F × W) (ToolGatewayResult F)
  unfolding record_denied outside check_approval after_approval contact
  execute_verdict deny draws gateway key state_id call decision = record_denied call decision
  execute_verdict requires_approval draws gateway key state_id call decision = do
    approval ← outside (check_approval gateway draws call decision)
    after_approval (is_approved approval.verdict) gateway key state_id call decision approval
  execute_verdict allow draws gateway key state_id call decision =
      contact gateway key state_id call decision none

  -- `ToolGateway.execute`
  unfoldable pub execute :
      Draws
      → ToolGateway F W
      → Option String
      → String
      → ToolCallSpec F
      → Exec (EventLog F × W) (ToolGatewayResult F)
  unfolding execute_verdict
  execute draws gateway key state_id call =
      let decision = evaluate_tool_call_policy call gateway.registry in
      execute_verdict decision.verdict draws gateway key state_id call decision

-- `promotion_map.get(call_id)`
unfoldable pub promotion_key : List (String × String) → String → Option String
promotion_key [] id = none
promotion_key ((call_id, key) ∷ keys) id =
    let rest = promotion_key keys id in if call_id == id then some key else rest

-- the state that follows an execution
unfoldable pub next_state : {F : Type 0} → String → Option (ModelRevisionEvent F) → String
next_state state_id none = state_id
next_state state_id (some rev) = rev.resulting_state_id

module _ {F W : Type 0} ⦃p : Platform F⦄ where
  -- `ToolGateway.execute_batch`, with the draws of each call
  unfoldable pub execute_batch :
      ToolGateway F W
      → List (String × String)
      → String
      → List (Draws × ToolCallSpec F)
      → Exec (EventLog F × W) (List (ToolGatewayResult F))
  unfolding execute promotion_key next_state
  execute_batch gateway keys state_id [] = return []
  execute_batch gateway keys state_id ((draws, call) ∷ calls) = do
    result ← execute draws gateway (promotion_key keys call.call_id) state_id call
    rest ← execute_batch gateway keys (next_state state_id result.revision_event) calls
    return (result ∷ rest)
