-- ===== src/EventLog.antt =====
-- src/cee_core/events.py and src/cee_core/event_log.py: the event records and the append-only log.
-- `Replay` rebuilds a world state from the log's revisions; `Queries` has the proofs on the log, and
-- `Revise` those on the replay of what `revise_from_commitment` writes.
pub mod Queries
pub mod Replay
pub mod Revise
use cognitive_execution_engi.Prelude.{
  String, ◌==◌, Bool, true, false, List, [], ◌∷◌, ◌++◌, if◌then◌else◌,
}
use cognitive_execution_engi.Value.{Entries}
use cognitive_execution_engi.Outcome.{Outcome, ok, raise, ◌>>=◌, attribute_error}
use cognitive_execution_engi.Exec.{Exec}
use cognitive_execution_engi.Commitment.{CommitmentEvent}
use cognitive_execution_engi.Revision.{ModelRevisionEvent}
use cognitive_execution_engi.Tools.{ToolCallEvent, ToolResultEvent}
use cognitive_execution_engi.Approval.{ApprovalAuditEvent}
use cognitive_execution_engi.Observation.{ObservationEvent}
use cognitive_execution_engi.Deliberation.{ReasoningStep}

pub record Event (F : Type 0) : Type 0 where
  pub event_type : String
  pub payload : Entries F
  pub trace_id : String
  pub created_at : String
  pub actor : String

pub record DeliberationEvent : Type 0 where
  pub reasoning_step : ReasoningStep
  pub trace_id : String
  pub created_at : String
  pub actor : String

pub data EventRecord (F : Type 0) : Type 0 where
  event : Event F → EventRecord F
  deliberation : DeliberationEvent → EventRecord F
  approval : ApprovalAuditEvent F → EventRecord F
  tool_call : ToolCallEvent F → EventRecord F
  tool_result : ToolResultEvent F → EventRecord F
  observation : ObservationEvent F → EventRecord F
  commitment : CommitmentEvent F → EventRecord F
  revision : ModelRevisionEvent F → EventRecord F

abbrev pub EventLog : Type 0 → Type 0
EventLog F = List (EventRecord F)

module _ {F : Type 0} where
  -- `EventLog.append`; the type admits only the classes that the code accepts
  unfoldable pub append : EventRecord F → Exec (EventLog F) (Unit {0})
  append e log = (ok tt, log ++ e ∷ [])

  -- the attribute `trace_id`, which commitments and revisions do not have
  unfoldable pub trace_of : EventRecord F → Outcome String
  trace_of (event e) = ok e.trace_id
  trace_of (deliberation e) = ok e.trace_id
  trace_of (approval e) = ok e.decision.transition_trace_id
  trace_of (tool_call e) = ok e.call.call_id
  trace_of (tool_result e) = ok e.call_id
  trace_of (observation e) = ok e.observation.call_id
  trace_of (commitment e) = raise (attribute_error "trace_id")
  trace_of (revision e) = raise (attribute_error "trace_id")

  unfoldable pub by_trace : String → EventLog F → Outcome (EventLog F)
  unfolding trace_of
  by_trace id [] = ok []
  by_trace id (e ∷ log) = do
    trace ← trace_of e
    rest ← by_trace id log
    ok (if trace == id then e ∷ rest else rest)

  unfoldable pub commitment_events : EventLog F → List (CommitmentEvent F)
  commitment_events [] = []
  commitment_events (commitment e ∷ log) = e ∷ commitment_events log
  commitment_events (_ ∷ log) = commitment_events log

  unfoldable pub revision_events : EventLog F → List (ModelRevisionEvent F)
  revision_events [] = []
  revision_events (revision e ∷ log) = e ∷ revision_events log
  revision_events (_ ∷ log) = revision_events log
