-- ===== src/Approval.antt =====
-- src/cee_core/approval.py: approval requests and decisions, providers and the gate. A provider may
-- ask a human or call out, so it is an action on a world `W`; ids and times are given by the caller.
-- The interactive provider, which reads a terminal, is not modelled. The proofs are in `Gate`.
pub mod Gate
use cognitive_execution_engi.Prelude.{
  String, Bool, true, false, List, [], ◌∷◌, ◌++◌, Option, none, some, ◌<>◌, truthy, if◌then◌else◌,
}
use cognitive_execution_engi.Exec.{Exec, return, ◌>>=◌}
use cognitive_execution_engi.World.Schema.{RevisionDelta}
use cognitive_execution_engi.Commitment.{CommitmentEvent}
use cognitive_execution_engi.DeltaPolicy.{DeltaPolicyDecision}
use cognitive_execution_engi.Tools.{ToolCallSpec, ToolPolicyDecision, verdict_text}

pub data ApprovalVerdict : Type 0 where
  approved rejected : ApprovalVerdict

pub data ApprovalSource : Type 0 where
  commitment tool_call delta : ApprovalSource

pub record ApprovalRequest (F : Type 0) : Type 0 where
  pub request_id : String
  pub source : ApprovalSource
  pub target_summary : String
  pub reason : String
  pub risk_level : String
  pub commitment : Option (CommitmentEvent F)
  pub tool_call : Option (ToolCallSpec F)
  pub delta : Option (RevisionDelta F)
  pub tool_policy_decision : Option ToolPolicyDecision
  pub delta_policy_decision : Option DeltaPolicyDecision

-- `reason or other`
abbrev or_text : String → String → String
or_text s other = if truthy s then s else other

module _ {F : Type 0} where
  unfoldable pub from_commitment : String → CommitmentEvent F → String → ApprovalRequest F
  from_commitment id event reason = record {
    request_id = id;
    source = ApprovalSource.commitment;
    target_summary = event.intent_summary;
    reason = or_text reason event.intent_summary;
    risk_level = "requires_approval";
    commitment = some event;
    tool_call = none;
    delta = none;
    tool_policy_decision = none;
    delta_policy_decision = none;
  }

  unfoldable pub from_tool_call :
      String → ToolCallSpec F → ToolPolicyDecision → String → ApprovalRequest F
  unfolding verdict_text
  from_tool_call id call decision reason = record {
    request_id = id;
    source = ApprovalSource.tool_call;
    target_summary = "Tool call: " <> call.tool_name;
    reason = or_text reason decision.reason;
    risk_level = verdict_text decision.verdict;
    commitment = none;
    tool_call = some call;
    delta = none;
    tool_policy_decision = some decision;
    delta_policy_decision = none;
  }

  unfoldable pub from_delta :
      String → RevisionDelta F → DeltaPolicyDecision → String → ApprovalRequest F
  from_delta id d decision reason = record {
    request_id = id;
    source = ApprovalSource.delta;
    target_summary = "Delta: " <> d.target_ref;
    reason = or_text reason decision.reason;
    risk_level = if decision.requires_approval then "requires_approval" else "allowed";
    commitment = none;
    tool_call = none;
    delta = some d;
    tool_policy_decision = none;
    delta_policy_decision = some decision;
  }

pub record ApprovalDecision (F : Type 0) : Type 0 where
  pub transition_trace_id : String
  pub verdict : ApprovalVerdict
  pub decided_by : String
  pub reason : String
  pub approval_id : String
  pub decided_at : String
  pub request : Option (ApprovalRequest F)

-- `ApprovalDecision.approved`, of the verdict
abbrev pub is_approved : ApprovalVerdict → Bool
is_approved approved = true
is_approved rejected = false

-- The event that `to_event` makes holds the decision and nothing else.
pub record ApprovalAuditEvent (F : Type 0) : Type 0 where
  pub decision : ApprovalDecision F

abbrev pub to_event : {F : Type 0} → ApprovalDecision F → ApprovalAuditEvent F
to_event d = record { decision = d }

-- the two methods of the protocol
pub record ApprovalProvider (F W : Type 0) : Type 0 where
  pub decide : CommitmentEvent F → Exec W (ApprovalDecision F)
  pub decide_request : ApprovalRequest F → Exec W (ApprovalDecision F)

pub record ApprovalGateResult (F : Type 0) : Type 0 where
  pub approved_transitions : List (CommitmentEvent F)
  pub decisions : List (ApprovalDecision F)
  pub rejected_transitions : List (CommitmentEvent F)

module _ {F : Type 0} where
  -- one more event decided
  abbrev pub record_decision :
      CommitmentEvent F → ApprovalDecision F → ApprovalGateResult F → ApprovalGateResult F
  record_decision event decision result =
      if is_approved decision.verdict
      then record result {
        approved_transitions = event ∷ result.approved_transitions;
        decisions = decision ∷ result.decisions;
      }
      else record result {
        decisions = decision ∷ result.decisions;
        rejected_transitions = event ∷ result.rejected_transitions;
      }

  abbrev pub record_request :
      ApprovalRequest F → ApprovalDecision F → ApprovalGateResult F → ApprovalGateResult F
  record_request request decision result = elim request.commitment [
    | none ↦ record result { decisions = decision ∷ result.decisions }
    | some event ↦ record_decision event decision result
  ]

module _ {F W : Type 0} where
  -- `StaticApprovalProvider`; the ids and the time of its decisions are parameters
  unfoldable pub static_provider :
      ApprovalVerdict
      → String
      → String
      → (request_id approval_id now : String) → ApprovalProvider F W
  unfolding from_commitment
  static_provider verdict by reason request_id approval_id now = record {
    decide = λ event. return (record {
      transition_trace_id = event.event_id;
      verdict = verdict;
      decided_by = by;
      reason = reason;
      approval_id = approval_id;
      decided_at = now;
      request = some (from_commitment request_id event "");
    });
    decide_request = λ request. return (record {
      transition_trace_id = elim request.commitment [
        | none ↦ request.request_id
        | some event ↦ event.event_id
      ];
      verdict = verdict;
      decided_by = by;
      reason = reason;
      approval_id = approval_id;
      decided_at = now;
      request = some request;
    });
  }

  -- one round of the loop, with the rounds that follow; an event that needs no approval is passed
  -- over
  unfoldable pub put_to :
      ApprovalProvider F W
      → CommitmentEvent F
      → Bool
      → Exec W (ApprovalGateResult F)
      → Exec W (ApprovalGateResult F)
  put_to provider event false rest = rest
  put_to provider event true rest = do
    decision ← provider.decide event
    result ← rest
    return (record_decision event decision result)

  -- `ApprovalGate.resolve`: the events that require approval are put to the provider, in order
  unfoldable pub resolve :
      ApprovalProvider F W → List (CommitmentEvent F) → Exec W (ApprovalGateResult F)
  unfolding put_to
  resolve provider [] =
      return (record { approved_transitions = []; decisions = []; rejected_transitions = [] })
  resolve provider (event ∷ events) =
      put_to provider event event.requires_approval (resolve provider events)

  -- `ApprovalGate.resolve_requests`
  unfoldable pub resolve_requests :
      ApprovalProvider F W → List (ApprovalRequest F) → Exec W (ApprovalGateResult F)
  resolve_requests provider [] =
      return (record { approved_transitions = []; decisions = []; rejected_transitions = [] })
  resolve_requests provider (request ∷ requests) = do
    decision ← provider.decide_request request
    result ← resolve_requests provider requests
    return (record_request request decision result)
