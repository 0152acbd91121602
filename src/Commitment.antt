-- ===== src/Commitment.antt =====
-- src/cee_core/commitment.py: commitment events and their constructors. A literal type of the source
-- has one more constructor for any other text that a payload may carry.
pub mod Policy
use cognitive_execution_engi.Prelude.{String, Bool, true, false, List, []}
use cognitive_execution_engi.Value.{Platform}
use cognitive_execution_engi.World.State.{WorldState}

pub data CommitmentKind : Type 0 where
  observe act tool_contact internal_commit : CommitmentKind
  other_kind : String → CommitmentKind

pub data Reversibility : Type 0 where
  reversible partially_reversible irreversible : Reversibility
  other_reversibility : String → Reversibility

pub record CommitmentEvent (F : Type 0) : Type 0 where
  pub event_id : String
  pub source_state_id : String
  pub commitment_kind : CommitmentKind
  pub intent_summary : String
  pub expected_world_change : List String
  pub expected_self_change : List String
  pub affected_entity_ids : List String
  pub affected_relation_ids : List String
  pub action_summary : String
  pub external_result_summary : String
  pub observation_summaries : List String
  pub success : Bool
  pub reversibility : Reversibility
  pub requires_approval : Bool
  pub cost : F
  pub risk_realized : F

-- the text of a kind, as an f-string shows it
unfoldable pub kind_text : CommitmentKind → String
kind_text observe = "observe"
kind_text act = "act"
kind_text tool_contact = "tool_contact"
kind_text internal_commit = "internal_commit"
kind_text (other_kind s) = s

module _ {F : Type 0} ⦃p : Platform F⦄ where
  -- `CommitmentEvent(event_id, source_state_id, commitment_kind, intent_summary)`: the defaults
  abbrev pub blank : String → String → CommitmentKind → String → CommitmentEvent F
  blank event_id source kind intent = record {
    event_id = event_id;
    source_state_id = source;
    commitment_kind = kind;
    intent_summary = intent;
    expected_world_change = [];
    expected_self_change = [];
    affected_entity_ids = [];
    affected_relation_ids = [];
    action_summary = "";
    external_result_summary = "";
    observation_summaries = [];
    success = true;
    reversibility = reversible;
    requires_approval = false;
    cost = p.decimal 0 0;
    risk_realized = p.decimal 0 0;
  }

  unfoldable pub make_observation_commitment :
      WorldState F → String → String → List String → CommitmentEvent F
  make_observation_commitment state event_id intent targets =
      record (blank event_id state.state_id observe intent) {
        affected_entity_ids = targets;
        action_summary = "request observation from reality interface";
      }

  unfoldable pub make_act_commitment :
      WorldState F
      → String
      → String
      → String
      → List String
      → List String
      → Reversibility
      → CommitmentEvent F
  make_act_commitment state event_id intent action targets expected reversibility =
      record (blank event_id state.state_id act intent) {
        affected_entity_ids = targets;
        action_summary = action;
        expected_world_change = expected;
        reversibility = reversibility;
      }

  unfoldable pub make_tool_contact_commitment :
      WorldState F → String → String → String → List String → CommitmentEvent F
  make_tool_contact_commitment state event_id intent action targets =
      record (blank event_id state.state_id tool_contact intent) {
        affected_entity_ids = targets;
        action_summary = action;
      }

module _ {F : Type 0} where
  unfoldable pub complete_commitment :
      CommitmentEvent F → Bool → String → List String → F → CommitmentEvent F
  complete_commitment event success result observations risk = record event {
    success = success;
    external_result_summary = result;
    observation_summaries = observations;
    risk_realized = risk;
  }
