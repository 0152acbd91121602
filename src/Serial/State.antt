-- ===== src/Serial/State.antt =====
-- src/cee_core/world_state.py: `WorldState` as a payload.
use cognitive_execution_engi.Prelude.{String, ◌≡◌, refl, List, [], ◌∷◌, false, Option, none, some}
use cognitive_execution_engi.Value.{Value, Entries, Platform, nil}
use cognitive_execution_engi.Outcome.{Outcome, ok, ◌>>=◌}
use cognitive_execution_engi.Schemas.{require_schema_version}
use cognitive_execution_engi.Serial.{
  dict_of, required, optional, as_text, as_float, as_texts, texts, as_dict, as_text_or_null,
  write_each, read_each, read_each_all, as_texts-texts,
}
use cognitive_execution_engi.World.Schema.{WorldEntity, WorldRelation, WorldHypothesis}
use cognitive_execution_engi.World.State.{WorldState}
use cognitive_execution_engi.Serial.Entity
use cognitive_execution_engi.Serial.Relation
use cognitive_execution_engi.Serial.Hypothesis

-- `WORLD_STATE_SCHEMA_VERSION`
abbrev world_state_schema_version : String
world_state_schema_version = "cee.world_state.v1"

module _ {F : Type 0} where
  write_entity : WorldEntity F → Value F
  write_entity e = Value.dict (Entity.to_dict e)

  write_relation : WorldRelation F → Value F
  write_relation r = Value.dict (Relation.to_dict r)

  write_hypothesis : WorldHypothesis F → Value F
  write_hypothesis h = Value.dict (Hypothesis.to_dict h)

  abbrev optional_text : Option String → Value F
  optional_text none = Value.null
  optional_text (some s) = Value.str s

module _ {F : Type 0} ⦃p : Platform F⦄ where
  read_entity : Value F → Outcome (WorldEntity F)
  unfolding as_dict
  read_entity v = as_dict v >>= Entity.from_dict

  read_relation : Value F → Outcome (WorldRelation F)
  unfolding as_dict
  read_relation v = as_dict v >>= Relation.from_dict

  read_hypothesis : Value F → Outcome (WorldHypothesis F)
  unfolding as_dict
  read_hypothesis v = as_dict v >>= Hypothesis.from_dict

  entities_back :
      (es : List (WorldEntity F)) → read_each read_entity (write_each write_entity es) ≡ ok es
  unfolding read_entity write_entity as_dict
  entities_back es = read_each_all write_entity read_entity es Entity.from_dict-to_dict

  relations_back :
      (rs : List (WorldRelation F)) → read_each read_relation (write_each write_relation rs) ≡ ok rs
  unfolding read_relation write_relation as_dict
  relations_back rs = read_each_all write_relation read_relation rs Relation.from_dict-to_dict

  hypotheses_back :
      (hs : List (WorldHypothesis F))
      → read_each read_hypothesis (write_each write_hypothesis hs) ≡ ok hs
  unfolding read_hypothesis write_hypothesis as_dict
  hypotheses_back hs =
      read_each_all write_hypothesis read_hypothesis hs Hypothesis.from_dict-to_dict

parent_back :
    (F : Type 0) (parent : Option String)
    → as_text_or_null (optional_text {F = F} parent) ≡ ok parent
unfolding as_text_or_null
parent_back F none = refl
parent_back F (some s) = refl

module _ {F : Type 0} where
  unfoldable pub to_dict : WorldState F → Entries F
  unfolding dict_of texts write_each write_entity write_relation write_hypothesis
  to_dict r = dict_of (
      ("schema_version", Value.str world_state_schema_version)
      ∷ ("state_id", Value.str r.state_id)
      ∷ ("parent_state_id", optional_text r.parent_state_id)
      ∷ ("entities", write_each write_entity r.entities)
      ∷ ("relations", write_each write_relation r.relations)
      ∷ ("hypotheses", write_each write_hypothesis r.hypotheses)
      ∷ ("dominant_goals", texts r.dominant_goals)
      ∷ ("active_tensions", texts r.active_tensions)
      ∷ ("self_capability_summary", texts r.self_capability_summary)
      ∷ ("self_limit_summary", texts r.self_limit_summary)
      ∷ ("self_reliability_estimate", Value.float r.self_reliability_estimate)
      ∷ ("anchored_fact_summaries", texts r.anchored_fact_summaries)
      ∷ ("provenance_refs", texts r.provenance_refs)
      ∷ [])

module _ {F : Type 0} ⦃p : Platform F⦄ where
  unfoldable pub from_dict : Entries F → Outcome (WorldState F)
  unfolding require_schema_version required optional as_text as_float as_texts as_text_or_null
      read_each read_entity read_relation read_hypothesis
  from_dict payload = do
    checked ← require_schema_version payload world_state_schema_version false
    state_id ← as_text (optional "state_id" (Value.str "ws_0") payload)
    parent_state_id ← as_text_or_null (optional "parent_state_id" Value.null payload)
    entities ← read_each read_entity (optional "entities" (Value.list nil) payload)
    relations ← read_each read_relation (optional "relations" (Value.list nil) payload)
    hypotheses ← read_each read_hypothesis (optional "hypotheses" (Value.list nil) payload)
    dominant_goals ← as_texts (optional "dominant_goals" (Value.list nil) payload)
    active_tensions ← as_texts (optional "active_tensions" (Value.list nil) payload)
    self_capability_summary ← as_texts (optional "self_capability_summary" (Value.list nil) payload)
    self_limit_summary ← as_texts (optional "self_limit_summary" (Value.list nil) payload)
    self_reliability_estimate ←
        as_float (optional "self_reliability_estimate" (Value.float (p.decimal 5 1)) payload)
    anchored_fact_summaries ← as_texts (optional "anchored_fact_summaries" (Value.list nil) payload)
    provenance_refs ← as_texts (optional "provenance_refs" (Value.list nil) payload)
    ok (record {
      state_id = state_id;
      parent_state_id = parent_state_id;
      entities = entities;
      relations = relations;
      hypotheses = hypotheses;
      dominant_goals = dominant_goals;
      active_tensions = active_tensions;
      self_capability_summary = self_capability_summary;
      self_limit_summary = self_limit_summary;
      self_reliability_estimate = self_reliability_estimate;
      anchored_fact_summaries = anchored_fact_summaries;
      provenance_refs = provenance_refs;
    })

  -- A world state that is written as a payload is read back: every field, and every entity, relation
  -- and hypothesis in it.
  pub world_state_back : (r : WorldState F) → from_dict (to_dict r) ≡ ok r
  unfolding from_dict to_dict require_schema_version required optional dict_of as_text as_float
  world_state_back r =
      rw
        (
          parent_back F r.parent_state_id,
          entities_back r.entities,
          relations_back r.relations,
          hypotheses_back r.hypotheses,
          as_texts-texts F r.dominant_goals,
          as_texts-texts F r.active_tensions,
          as_texts-texts F r.self_capability_summary,
          as_texts-texts F r.self_limit_summary,
          as_texts-texts F r.anchored_fact_summaries,
          as_texts-texts F r.provenance_refs,
        )
        refl
