-- ===== src/Examples.antt =====
-- Concrete inputs, shared by the tests and the runs of the children: fixed-point numbers in place of
-- floats, and a small world, plan, tool registry and gateway.
mod Worlds
mod Policies
mod Runs
mod Contacts
mod Payloads
mod Flows
mod Memories
mod Workflows
mod Realities
use cognitive_execution_engi.Prelude.{
  ℕ, zero, suc, ◌+◌, ◌-◌, ◌*◌, ◌/◌, String, Bool, true, false, List, [], ◌∷◌, Option, none, some,
  ltb, leb, eqb, ℤ, pos, negsuc, show,
}
use cognitive_execution_engi.Value
use cognitive_execution_engi.Value.{Value, Platform}
use cognitive_execution_engi.Outcome.{ok, raise, handler_error, Exception}
use cognitive_execution_engi.Exec.{return, throw}
use cognitive_execution_engi.World.Schema.{
  WorldEntity, WorldRelation, WorldHypothesis, RevisionDelta, RevisionTargetKind, entity_update,
  self_update,
}
use cognitive_execution_engi.World.State.{WorldState, fresh_state}
use cognitive_execution_engi.Commitment.{CommitmentEvent, act, blank}
use cognitive_execution_engi.Revision.{Request}
use cognitive_execution_engi.Tools.{ToolSpec, ToolRegistry, ToolCallSpec, ToolRisk, read, write}
use cognitive_execution_engi.Approval.{ApprovalProvider, approved, rejected, static_provider}
use cognitive_execution_engi.Task.{TaskSpec, analysis, low, high}
use cognitive_execution_engi.Planner.{PlanSpec}
use cognitive_execution_engi.EventLog.{EventLog, EventRecord}
use cognitive_execution_engi.Gateway.{ToolGateway, ToolHandler, Draws}

-- `m / 10 ^ d`, for at most one decimal
abbrev scale : ℕ → ℕ → ℕ
scale m zero = m * 10000
scale m (suc d) = m * 1000

abbrev whole : ℤ → ℕ
whole (pos n) = n * 10000
whole (negsuc n) = 0

-- numbers of ten-thousandths
instance abbrev pub fixed_point : Platform ℕ
fixed_point = record {
  decimal = scale;
  of_int = whole;
  lt = ltb;
  le = leb;
  add = λ a b. a + b;
  sub = λ a b. a - b;
  mul = λ a b. (a * b) / 10000;
  div = λ a b. (a * 10000) / b;
  round4 = λ a. a;
  is_zero = λ a. eqb a 0;
  floor = λ a. pos (a / 10000);
  parse_float = λ s. none;
  text = λ v. "a value";
  two_places = λ a. show (a / 100);
  dumps = λ v. "{}";
  loads = λ s. none;
}

abbrev pub door : WorldEntity ℕ
door = record { entity_id = "door"; kind = "object"; summary = "a door"; confidence = 9000 }

abbrev pub room : WorldEntity ℕ
room = record { entity_id = "room"; kind = "place"; summary = "a room"; confidence = 9000 }

abbrev pub in_room : WorldRelation ℕ
in_room = record {
  relation_id = "r1";
  subject_id = "door";
  predicate = "in";
  object_id = "room";
  confidence = 8000;
}

abbrev pub is_locked : WorldHypothesis ℕ
is_locked = record {
  hypothesis_id = "h1";
  statement = "the door is locked";
  related_entity_ids = "door" ∷ [];
  related_relation_ids = [];
  confidence = 5000;
  status = "tentative";
}

-- a world at `ws_4` with two entities, a relation, a hypothesis and a fact
abbrev pub house : WorldState ℕ
house = record (fresh_state "ws_4") {
  entities = door ∷ room ∷ [];
  relations = in_room ∷ [];
  hypotheses = is_locked ∷ [];
  anchored_fact_summaries = "the room is dark" ∷ [];
}

abbrev pub delta_at : RevisionTargetKind → String → RevisionDelta ℕ
delta_at kind ref = record {
  delta_id = "d1";
  target_kind = kind;
  target_ref = ref;
  before_summary = "";
  after_summary = "after";
  justification = "seen";
  raw_value = Value.str "open";
}

-- an event that requires approval
abbrev pub push : CommitmentEvent ℕ
push = record (blank "ce1" "ws_4" act "push the door") { requires_approval = true }

abbrev pub reader : ToolSpec ℕ
reader = record {
  name = "read_docs";
  description = "";
  risk = read;
  input_schema = Value.end;
  reversible = true;
  observable_result = true;
  evidence_required = 0;
}

abbrev pub writer : ToolSpec ℕ
writer = record reader { name = "write_file"; risk = write }

abbrev pub tools : ToolRegistry ℕ
tools = reader ∷ writer ∷ []

abbrev pub call_of : String → ToolCallSpec ℕ
call_of name = record { tool_name = name; arguments = Value.end; call_id = "c1" }

-- one delta that takes effect, one that needs approval, and a proposed call
abbrev pub plan : PlanSpec ℕ
plan = record {
  objective = "open the door";
  candidate_deltas =
      delta_at entity_update "beliefs.door"
      ∷ delta_at self_update "self_model.limits"
      ∷ delta_at entity_update "policy.rules"
      ∷ [];
  proposed_tool_calls = call_of "read_docs" ∷ [];
  plan_id = "p1";
  actor = "planner";
}

abbrev pub task : TaskSpec
task = record {
  objective = "Read docs: opening doors";
  kind = analysis;
  success_criteria = [];
  requested_primitives = "observe" ∷ [];
  risk_level = low;
  task_level = "";
  task_id = "t1";
  raw_input = "Read docs: opening doors";
  domain_name = "core";
}

abbrev pub commitment_record : EventRecord ℕ
commitment_record = EventRecord.commitment push

-- the world of the handlers: how often a tool has run
abbrev pub counting : ToolHandler ℕ ℕ
counting arguments n = (ok (Value.str "text"), n + 1)

abbrev pub failing : ToolHandler ℕ ℕ
failing arguments n = (raise (handler_error "no such file"), n + 1)

abbrev pub gateway_of : ToolHandler ℕ ℕ → ToolGateway ℕ ℕ
gateway_of handler = record {
  registry = tools;
  handlers = ("read_docs", handler) ∷ ("write_file", handler) ∷ [];
  approval_provider = none;
}

abbrev pub draws : Draws
draws = record { request_id = "ar_1"; approval_id = "ap_1"; decided_at = "2026-01-01" }

abbrev pub request : Request
request = record {
  revision_id = "rev1";
  resulting_state_id = "ws_5";
  strengthened_hypothesis_ids = "h1" ∷ [];
  discarded_hypothesis_ids = [];
  new_anchor_fact_summaries = "the door is open" ∷ [];
  revision_summary = "";
}

abbrev pub discarding : Request
discarding = record request { discarded_hypothesis_ids = "h1" ∷ [] }
