-- ===== src/Reality/ByGateway.antt =====
-- src/cee_core/reality_interface.py: a tool contact through the tool gateway. The id of the call and
-- the id and time of the logged event are given by the caller.
use cognitive_execution_engi.Prelude.{
  String, Bool, true, false, List, [], ◌∷◌, Option, none, some, ◌<>◌, or_else, truthy,
  if◌then◌else◌,
}
use cognitive_execution_engi.Value
use cognitive_execution_engi.Value.{Value, Entries, Platform}
use cognitive_execution_engi.Outcome.{value_error}
use cognitive_execution_engi.Exec.{Exec, return, throw, ◌>>=◌, ◌>>◌}
use cognitive_execution_engi.Commitment.{
  CommitmentEvent, tool_contact, kind_text, complete_commitment,
}
use cognitive_execution_engi.Tools.{ToolCallSpec, ToolStatus, succeeded, failed, verdict_text}
use cognitive_execution_engi.Approval.{ApprovalDecision, ApprovalVerdict, approved, rejected}
use cognitive_execution_engi.Observation.{ObservationCandidate, first_chars}
use cognitive_execution_engi.EventLog.{EventLog, EventRecord}
use cognitive_execution_engi.Gateway.{ToolGateway, ToolGatewayResult, Draws, log}
use cognitive_execution_engi.Gateway.Run.{execute}

pub record GatewayContactResult (F : Type 0) : Type 0 where
  pub commitment_event : CommitmentEvent F
  pub gateway_succeeded : Bool
  pub policy_verdict : String
  pub tool_result_summary : String
  pub observation_summary : String
  pub approval_verdict : String

-- what a contact draws
pub record ContactDraws : Type 0 where
  pub gateway : Draws
  pub call_id : String
  pub trace_id : String
  pub created_at : String

-- `ToolGatewayResult.succeeded`, of the status
abbrev pub has_succeeded : ToolStatus → Bool
has_succeeded succeeded = true
has_succeeded failed = false

abbrev pub approval_text : ApprovalVerdict → String
approval_text approved = "approved"
approval_text rejected = "rejected"

-- `(s,) if s else ()`
abbrev pub singleton_if : String → List String
singleton_if s = if truthy s then s ∷ [] else []

module _ {F : Type 0} where
  unfoldable pub approval_summary : Option (ApprovalDecision F) → String
  approval_summary none = ""
  approval_summary (some decision) = approval_text decision.verdict

  unfoldable pub contact_call : ContactDraws → String → Option (Entries F) → ToolCallSpec F
  contact_call draws tool_name arguments = record {
    tool_name = tool_name;
    arguments = or_else arguments Value.end;
    call_id = draws.call_id;
  }

  -- the event "reality.gateway_contact.completed"
  unfoldable pub contact_record :
      ContactDraws → CommitmentEvent F → ToolGatewayResult F → EventRecord F
  unfolding verdict_text
  contact_record draws commitment result = EventRecord.event (record {
    event_type = "reality.gateway_contact.completed";
    payload = Value.entry "commitment_event_id" (Value.str commitment.event_id) (
        Value.entry "tool_name" (Value.str commitment.action_summary) (
          Value.entry "gateway_succeeded" (Value.bool (has_succeeded result.tool_result.status)) (
            Value.entry "policy_verdict" (Value.str (verdict_text result.policy_decision.verdict))
              Value.end)));
    trace_id = draws.trace_id;
    created_at = draws.created_at;
    actor = "reality_interface";
  })

module _ {F : Type 0} ⦃p : Platform F⦄ where
  -- `str(v)[:200]`
  unfoldable pub shortened : Value F → String
  unfolding first_chars
  shortened v = first_chars 200 (p.text v)

  unfoldable pub observation_text : Option (ObservationCandidate F) → String
  unfolding shortened
  observation_text none = ""
  observation_text (some observation) = shortened observation.content

  unfoldable pub contact_result : CommitmentEvent F → ToolGatewayResult F → GatewayContactResult F
  unfolding shortened observation_text approval_summary verdict_text complete_commitment
  contact_result commitment result =
      let observed = observation_text result.observation in
      let told = shortened result.tool_result.result in
      let success = has_succeeded result.tool_result.status in
      record {
        commitment_event =
            complete_commitment commitment success (if truthy told then told else observed)
              (singleton_if observed) (p.decimal 0 0);
        gateway_succeeded = success;
        policy_verdict = verdict_text result.policy_decision.verdict;
        tool_result_summary = told;
        observation_summary = observed;
        approval_verdict = approval_summary result.approval_decision;
      }

  -- the result for a commitment that names no tool
  unfoldable pub unnamed_result : CommitmentEvent F → GatewayContactResult F
  unfolding complete_commitment
  unnamed_result commitment = record {
    commitment_event =
        complete_commitment commitment false "no tool name in commitment action_summary" []
          (p.decimal 0 0);
    gateway_succeeded = false;
    policy_verdict = "deny";
    tool_result_summary = "";
    observation_summary = "";
    approval_verdict = "";
  }

module _ {F W : Type 0} ⦃p : Platform F⦄ where
  -- the contact by a named tool
  unfoldable pub contact_tool :
      ContactDraws
      → CommitmentEvent F
      → ToolGateway F W
      → Option (Entries F)
      → Option String
      → String
      → Exec (EventLog F × W) (GatewayContactResult F)
  unfolding execute log contact_call contact_record contact_result
  contact_tool draws commitment gateway arguments key state_id = do
    result ←
        execute draws.gateway gateway key state_id
          (contact_call draws commitment.action_summary arguments)
    log (contact_record draws commitment result)
    return (contact_result commitment result)

module _ (repr : String → String) {F W : Type 0} ⦃p : Platform F⦄ where
  unfoldable pub execute_commitment_via_gateway :
      ContactDraws
      → CommitmentEvent F
      → ToolGateway F W
      → Option (Entries F)
      → Option String
      → String
      → Exec (EventLog F × W) (GatewayContactResult F)
  unfolding contact_tool unnamed_result kind_text
  execute_commitment_via_gateway draws commitment gateway arguments key state_id =
      elim commitment.commitment_kind [
        | tool_contact ↦
            if truthy commitment.action_summary
            then contact_tool draws commitment gateway arguments key state_id
            else return (unnamed_result commitment)
        | _ ↦ throw (
            value_error (
              "execute_commitment_via_gateway requires commitment_kind='tool_contact'; got "
              <> repr (kind_text commitment.commitment_kind)))
      ]
