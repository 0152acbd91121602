-- ===== src/World/State.antt =====
-- src/cee_core/world_state.py: the world state and its queries.
use cognitive_execution_engi.Prelude.{
  String, ◌==◌, ◌||◌, Bool, Option, none, List, [], keep, find_first, contains,
}
use cognitive_execution_engi.World.Schema.{WorldEntity, WorldRelation, WorldHypothesis}
use cognitive_execution_engi.Value.{Platform}

pub record WorldState (F : Type 0) : Type 0 where
  pub state_id : String
  pub parent_state_id : Option String
  pub entities : List (WorldEntity F)
  pub relations : List (WorldRelation F)
  pub hypotheses : List (WorldHypothesis F)
  pub dominant_goals : List String
  pub active_tensions : List String
  pub self_capability_summary : List String
  pub self_limit_summary : List String
  pub self_reliability_estimate : F
  pub anchored_fact_summaries : List String
  pub provenance_refs : List String

-- `WorldState(state_id=…)`: every other field at its default
abbrev pub fresh_state : {F : Type 0} ⦃p : Platform F⦄ → String → WorldState F
fresh_state ⦃p⦄ id = record {
  state_id = id;
  parent_state_id = none;
  entities = [];
  relations = [];
  hypotheses = [];
  dominant_goals = [];
  active_tensions = [];
  self_capability_summary = [];
  self_limit_summary = [];
  self_reliability_estimate = p.decimal 5 1;
  anchored_fact_summaries = [];
  provenance_refs = [];
}

module _ {F : Type 0} (ws : WorldState F) where
  unfoldable pub find_entity : String → Option (WorldEntity F)
  find_entity id = find_first (λ e. e.entity_id == id) ws.entities

  unfoldable pub find_relation : String → Option (WorldRelation F)
  find_relation id = find_first (λ r. r.relation_id == id) ws.relations

  unfoldable pub find_hypothesis : String → Option (WorldHypothesis F)
  find_hypothesis id = find_first (λ h. h.hypothesis_id == id) ws.hypotheses

  unfoldable pub entities_of_kind : String → List (WorldEntity F)
  entities_of_kind kind = keep (λ e. e.kind == kind) ws.entities

  unfoldable pub relations_for_subject : String → List (WorldRelation F)
  relations_for_subject id = keep (λ r. r.subject_id == id) ws.relations

  unfoldable pub relations_for_object : String → List (WorldRelation F)
  relations_for_object id = keep (λ r. r.object_id == id) ws.relations

  unfoldable pub active_hypotheses : List (WorldHypothesis F)
  active_hypotheses = keep (λ h. (h.status == "active") || (h.status == "tentative")) ws.hypotheses

  unfoldable pub rejected_hypotheses : List (WorldHypothesis F)
  rejected_hypotheses = keep (λ h. h.status == "rejected") ws.hypotheses

  unfoldable pub is_fact_anchored : String → Bool
  is_fact_anchored fact = contains fact ws.anchored_fact_summaries
