-- ===== src/Serial/Relation.antt =====
-- src/cee_core/world_schema.py: `WorldRelation` as a payload.
use cognitive_execution_engi.Prelude.{◌≡◌, refl, [], ◌∷◌, false}
use cognitive_execution_engi.Value.{Value, Entries, Platform}
use cognitive_execution_engi.Outcome.{Outcome, ok, ◌>>=◌}
use cognitive_execution_engi.Schemas.{require_schema_version}
use cognitive_execution_engi.Serial.{dict_of, required, optional, as_text, as_float}
use cognitive_execution_engi.World.Schema.{WorldRelation}
use cognitive_execution_engi.Serial.Entity.{world_schema_version}

module _ {F : Type 0} where
  unfoldable pub to_dict : WorldRelation F → Entries F
  unfolding dict_of
  to_dict r = dict_of (
      ("schema_version", Value.str world_schema_version)
      ∷ ("relation_id", Value.str r.relation_id)
      ∷ ("subject_id", Value.str r.subject_id)
      ∷ ("predicate", Value.str r.predicate)
      ∷ ("object_id", Value.str r.object_id)
      ∷ ("confidence", Value.float r.confidence)
      ∷ [])

module _ {F : Type 0} ⦃p : Platform F⦄ where
  unfoldable pub from_dict : Entries F → Outcome (WorldRelation F)
  unfolding require_schema_version required optional as_text as_float
  from_dict payload = do
    checked ← require_schema_version payload world_schema_version false
    relation_id ← required "relation_id" payload >>= as_text
    subject_id ← required "subject_id" payload >>= as_text
    predicate ← required "predicate" payload >>= as_text
    object_id ← required "object_id" payload >>= as_text
    confidence ← as_float (optional "confidence" (Value.float (p.decimal 1 0)) payload)
    ok (record {
      relation_id = relation_id;
      subject_id = subject_id;
      predicate = predicate;
      object_id = object_id;
      confidence = confidence;
    })

  pub from_dict-to_dict : (r : WorldRelation F) → from_dict (to_dict r) ≡ ok r
  unfolding from_dict to_dict require_schema_version required optional dict_of as_text as_float
  from_dict-to_dict r = refl
