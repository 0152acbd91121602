-- ===== src/Gateway.antt =====
-- src/cee_core/tool_gateway.py: the execution of tool calls. A handler acts on a world `W` and may
-- raise; the state of an execution is the event log with the world. Ids and times are given by the
-- caller, and the log of handler errors on the console is left out. `Run` has the execution;
-- the proofs are in `Append`, `Access` and `Trace`.
pub mod Run
pub mod Append
pub mod Records
pub mod Access
pub mod Trace
use cognitive_execution_engi.Prelude.{
  ℕ, ◌+◌, String, ◌==◌, Bool, true, false, not, ◌&&◌, List, [], ◌∷◌, ◌++◌, Option, none, some, ◌<>◌,
  show, length, is_some, if◌then◌else◌,
}
use cognitive_execution_engi.Value
use cognitive_execution_engi.Value.{Value, Entries, Platform}
use cognitive_execution_engi.Outcome
use cognitive_execution_engi.Outcome.{
  Exception, Outcome, ok, raise, value_error, type_error, key_error, attribute_error, handler_error,
}
use cognitive_execution_engi.Exec.{Exec, return, lift, ◌>>=◌, ◌>>◌}
use cognitive_execution_engi.World.Schema.{RevisionDelta}
use cognitive_execution_engi.Commitment.{CommitmentEvent, tool_contact, blank, complete_commitment}
use cognitive_execution_engi.Revision.{ModelRevisionEvent, expansion}
use cognitive_execution_engi.DeltaPolicy.{evaluate_delta_policy}
use cognitive_execution_engi.Planner.{takes_effect}
use cognitive_execution_engi.Tools.{
  ToolRegistry, ToolCallSpec, ToolPolicyDecision, ToolVerdict, allow, deny, requires_approval,
  ToolResultEvent, ToolStatus, succeeded, failed, get, evaluate_tool_call_policy,
}
use cognitive_execution_engi.Approval.{
  ApprovalProvider, ApprovalDecision, ApprovalRequest, ApprovalVerdict, rejected, from_tool_call,
  is_approved, to_event,
}
use cognitive_execution_engi.Observation.{
  ObservationCandidate, observation_from_tool_result, build_observation_event,
  promote_observation_to_delta,
}
use cognitive_execution_engi.EventLog.{EventLog, EventRecord, revision_events}

abbrev pub ToolHandler : Type 0 → Type 0 → Type 0
ToolHandler F W = Entries F → Exec W (Value F)

-- The timeout, which no code reads, is left out.
pub record ToolGateway (F W : Type 0) : Type 0 where
  pub registry : ToolRegistry F
  pub handlers : List (String × ToolHandler F W)
  pub approval_provider : Option (ApprovalProvider F W)

-- The tool result is optional in the source, and every path gives one.
pub record ToolGatewayResult (F : Type 0) : Type 0 where
  pub call : ToolCallSpec F
  pub policy_decision : ToolPolicyDecision
  pub commitment_event : Option (CommitmentEvent F)
  pub tool_result : ToolResultEvent F
  pub observation : Option (ObservationCandidate F)
  pub promotion_delta : Option (RevisionDelta F)
  pub revision_event : Option (ModelRevisionEvent F)
  pub approval_decision : Option (ApprovalDecision F)
  pub approved : Bool

-- what the run draws: the id of an approval request, and the id and time of a decision
pub record Draws : Type 0 where
  pub request_id : String
  pub approval_id : String
  pub decided_at : String

-- `str(exc)`
abbrev pub message : Exception → String
message (value_error s) = s
message (type_error s) = s
message (key_error s) = s
message (attribute_error s) = s
message (handler_error s) = s

module _ {F : Type 0} where
  unfoldable pub failure : ToolCallSpec F → String → ToolResultEvent F
  failure call text = record {
    call_id = call.call_id;
    tool_name = call.tool_name;
    status = failed;
    result = Value.null;
    error_message = text;
    actor = "tool_runner";
  }

  -- the event of a handler's outcome; an exception is caught
  unfoldable pub result_of : ToolCallSpec F → Outcome (Value F) → ToolResultEvent F
  unfolding failure
  result_of call (raise e) = failure call (message e)
  result_of call (ok v) = record {
    call_id = call.call_id;
    tool_name = call.tool_name;
    status = succeeded;
    result = v;
    error_message = "";
    actor = "tool_runner";
  }

  -- a result without a contact
  unfoldable pub refused :
      ToolCallSpec F
      → ToolPolicyDecision
      → Option (ApprovalDecision F)
      → Bool
      → ToolResultEvent F
      → ToolGatewayResult F
  refused call decision approval approved tool_result = record {
    call = call;
    policy_decision = decision;
    commitment_event = none;
    tool_result = tool_result;
    observation = none;
    promotion_delta = none;
    revision_event = none;
    approval_decision = approval;
    approved = approved;
  }

module _ {F W : Type 0} where
  unfoldable pub find_handler : List (String × ToolHandler F W) → String → Option (ToolHandler F W)
  find_handler [] name = none
  find_handler ((key, handler) ∷ handlers) name =
      let rest = find_handler handlers name in if key == name then some handler else rest

  -- `ToolGateway.register_handler`, which changes the gateway
  unfoldable pub register_handler :
      String → ToolHandler F W → ToolGateway F W → Outcome (ToolGateway F W)
  unfolding find_handler
  register_handler name handler gateway =
      if not (is_some (get gateway.registry name))
      then raise (value_error ("Cannot register handler for unknown tool: " <> name))
      else if is_some (find_handler gateway.handlers name)
      then raise (value_error ("Handler already registered for tool: " <> name))
      else ok (record gateway { handlers = gateway.handlers ++ (name, handler) ∷ [] })

  -- `event_log.append`
  unfoldable pub log : EventRecord F → Exec (EventLog F × W) (Unit {0})
  log e (es, w) = (ok tt, (es ++ e ∷ [], w))

  -- an action on the world alone
  unfoldable pub outside : {A : Type 0} → Exec W A → Exec (EventLog F × W) A
  outside m (es, w) = let (r, w') = m w in (r, (es, w'))

  -- `_check_approval`
  unfoldable pub check_approval :
      ToolGateway F W → Draws → ToolCallSpec F → ToolPolicyDecision → Exec W (ApprovalDecision F)
  unfolding from_tool_call
  check_approval gateway draws call decision =
      let request = from_tool_call draws.request_id call decision decision.reason in
      elim gateway.approval_provider [
        | some provider ↦ provider.decide_request request
        | none ↦ return (record {
          transition_trace_id = request.request_id;
          verdict = rejected;
          decided_by = "tool_gateway";
          reason = "no approval provider configured";
          approval_id = draws.approval_id;
          decided_at = draws.decided_at;
          request = some request;
        })
      ]

  -- a handler that is caught
  unfoldable pub run_handler :
      ToolCallSpec F → Option (ToolHandler F W) → Exec W (ToolResultEvent F)
  unfolding failure result_of
  run_handler call none =
      return (failure call ("no handler registered for tool: " <> call.tool_name))
  run_handler call (some handler) =
      λ w. let (r, w') = handler call.arguments w in (ok (result_of call r), w')

  -- `_execute_handler`
  unfoldable pub execute_handler : ToolGateway F W → ToolCallSpec F → Exec W (ToolResultEvent F)
  unfolding find_handler run_handler
  execute_handler gateway call = run_handler call (find_handler gateway.handlers call.tool_name)

  -- `_record_denied`
  unfoldable pub record_denied :
      ToolCallSpec F → ToolPolicyDecision → Exec (EventLog F × W) (ToolGatewayResult F)
  unfolding failure log refused
  record_denied call decision = do
    let tool_result = failure call ("tool policy denied: " <> decision.reason)
    log (EventRecord.tool_result tool_result)
    return (refused call decision none true tool_result)

  -- `_record_approval_denied`
  unfoldable pub record_approval_denied :
      ToolCallSpec F
      → ToolPolicyDecision
      → ApprovalDecision F
      → Exec (EventLog F × W) (ToolGatewayResult F)
  unfolding failure log refused
  record_approval_denied call decision approval = do
    let tool_result =
        failure call ("tool requires approval but was not approved: " <> decision.reason)
    log (EventRecord.approval (to_event approval))
    log (EventRecord.tool_result tool_result)
    return (refused call decision (some approval) false tool_result)
