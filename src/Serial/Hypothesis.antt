-- ===== src/Serial/Hypothesis.antt =====
-- src/cee_core/world_schema.py: `WorldHypothesis` as a payload.
use cognitive_execution_engi.Prelude.{◌≡◌, refl, [], ◌∷◌, false}
use cognitive_execution_engi.Value.{Value, Entries, Platform, nil}
use cognitive_execution_engi.Outcome.{Outcome, ok, ◌>>=◌}
use cognitive_execution_engi.Schemas.{require_schema_version}
use cognitive_execution_engi.Serial.{
  dict_of, required, optional, as_text, as_float, as_texts, texts, as_texts-texts,
}
use cognitive_execution_engi.World.Schema.{WorldHypothesis}
use cognitive_execution_engi.Serial.Entity.{world_schema_version}

module _ {F : Type 0} where
  unfoldable pub to_dict : WorldHypothesis F → Entries F
  unfolding dict_of texts
  to_dict r = dict_of (
      ("schema_version", Value.str world_schema_version)
      ∷ ("hypothesis_id", Value.str r.hypothesis_id)
      ∷ ("statement", Value.str r.statement)
      ∷ ("related_entity_ids", texts r.related_entity_ids)
      ∷ ("related_relation_ids", texts r.related_relation_ids)
      ∷ ("confidence", Value.float r.confidence)
      ∷ ("status", Value.str r.status)
      ∷ [])

module _ {F : Type 0} ⦃p : Platform F⦄ where
  unfoldable pub from_dict : Entries F → Outcome (WorldHypothesis F)
  unfolding require_schema_version required optional as_text as_float as_texts
  from_dict payload = do
    checked ← require_schema_version payload world_schema_version false
    hypothesis_id ← required "hypothesis_id" payload >>= as_text
    statement ← required "statement" payload >>= as_text
    related_entity_ids ← as_texts (optional "related_entity_ids" (Value.tuple nil) payload)
    related_relation_ids ← as_texts (optional "related_relation_ids" (Value.tuple nil) payload)
    confidence ← as_float (optional "confidence" (Value.float (p.decimal 5 1)) payload)
    status ← as_text (optional "status" (Value.str "tentative") payload)
    ok (record {
      hypothesis_id = hypothesis_id;
      statement = statement;
      related_entity_ids = related_entity_ids;
      related_relation_ids = related_relation_ids;
      confidence = confidence;
      status = status;
    })

  pub from_dict-to_dict : (r : WorldHypothesis F) → from_dict (to_dict r) ≡ ok r
  unfolding from_dict to_dict require_schema_version required optional dict_of as_text as_float
  from_dict-to_dict r =
      rw (as_texts-texts F r.related_entity_ids, as_texts-texts F r.related_relation_ids) refl
