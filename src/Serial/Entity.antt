-- ===== src/Serial/Entity.antt =====
-- src/cee_core/world_schema.py: `WorldEntity` as a payload.
use cognitive_execution_engi.Prelude.{String, ◌≡◌, refl, [], ◌∷◌, false}
use cognitive_execution_engi.Value.{Value, Entries, Platform}
use cognitive_execution_engi.Outcome.{Outcome, ok, ◌>>=◌}
use cognitive_execution_engi.World.Schema.{WorldEntity}
use cognitive_execution_engi.Schemas.{require_schema_version}
use cognitive_execution_engi.Serial.{dict_of, required, optional, as_text, as_float}

-- `WORLD_SCHEMA_VERSION`
abbrev pub world_schema_version : String
world_schema_version = "cee.world_schema.v1"

module _ {F : Type 0} where
  unfoldable pub to_dict : WorldEntity F → Entries F
  unfolding dict_of
  to_dict e = dict_of (
      ("schema_version", Value.str world_schema_version)
      ∷ ("entity_id", Value.str e.entity_id)
      ∷ ("kind", Value.str e.kind)
      ∷ ("summary", Value.str e.summary)
      ∷ ("confidence", Value.float e.confidence)
      ∷ [])

module _ {F : Type 0} ⦃p : Platform F⦄ where
  unfoldable pub from_dict : Entries F → Outcome (WorldEntity F)
  unfolding require_schema_version required optional as_text as_float
  from_dict payload = do
    checked ← require_schema_version payload world_schema_version false
    entity_id ← required "entity_id" payload >>= as_text
    kind ← required "kind" payload >>= as_text
    summary ← required "summary" payload >>= as_text
    confidence ← as_float (optional "confidence" (Value.float (p.decimal 1 0)) payload)
    ok (record { entity_id = entity_id; kind = kind; summary = summary; confidence = confidence })

  pub from_dict-to_dict : (e : WorldEntity F) → from_dict (to_dict e) ≡ ok e
  unfolding from_dict to_dict require_schema_version required optional as_text as_float dict_of
  from_dict-to_dict e = refl
