-- ===== src/Examples/Payloads.antt =====
-- Payloads that are written and read back.
use cognitive_execution_engi.Prelude.{ℕ, ◌≡◌, refl, true, [], ◌∷◌}
use cognitive_execution_engi.Value
use cognitive_execution_engi.Value.{Entries}
use cognitive_execution_engi.Outcome.{ok, raise, value_error}
use cognitive_execution_engi.World.Schema.{entity_update, anchor_add}
use cognitive_execution_engi.Revision.{ModelRevisionEvent, correction}
use cognitive_execution_engi.Schemas.{require_schema_version}
use cognitive_execution_engi.Serial.State
use cognitive_execution_engi.Serial.Revised
use cognitive_execution_engi.Serial.Plan
use cognitive_execution_engi.Examples.{fixed_point, house, plan, delta_at}

world_state_back_example : State.from_dict (State.to_dict house) ≡ ok house
world_state_back_example = State.world_state_back house

abbrev revision : ModelRevisionEvent ℕ
revision = record {
  revision_id = "rev1";
  prior_state_id = "ws_4";
  caused_by_event_id = "ce1";
  revision_kind = correction;
  deltas = delta_at entity_update "beliefs.door" ∷ delta_at anchor_add "the door is open" ∷ [];
  discarded_hypothesis_ids = [];
  strengthened_hypothesis_ids = "h1" ∷ [];
  new_anchor_fact_summaries = "the door is open" ∷ [];
  resulting_state_id = "ws_5";
  revision_summary = "the door was pushed";
}

revision_event_back_example : Revised.from_dict (Revised.to_dict revision) ≡ ok revision
revision_event_back_example = Revised.revision_event_back revision refl refl

plan_back_example : Plan.from_dict (Plan.to_dict plan) ≡ ok plan
plan_back_example = Plan.plan_back plan refl

-- a payload of another version
abbrev outdated : Entries ℕ
outdated = Value.entry "schema_version" (Value.str "cee.plan.v2") Value.end

outdated_refused :
    require_schema_version outdated "cee.plan.v1" true
    ≡ raise (value_error "Unsupported schema major version: cee.plan.v2; expected cee.plan.v1")
unfolding require_schema_version
outdated_refused = refl
