-- ===== src/World/Schema.antt =====
-- src/cee_core/world_schema.py: the protocol types, over a type `F` of confidences. A literal type
-- of the source has one more constructor for any other text that a payload may carry.
use cognitive_execution_engi.Prelude.{String, List}
use cognitive_execution_engi.Value.{Value}

pub record WorldEntity (F : Type 0) : Type 0 where
  pub entity_id : String
  pub kind : String
  pub summary : String
  pub confidence : F

pub record WorldRelation (F : Type 0) : Type 0 where
  pub relation_id : String
  pub subject_id : String
  pub predicate : String
  pub object_id : String
  pub confidence : F

-- The operations write statuses that the annotation does not list, so a status is a text.
pub record WorldHypothesis (F : Type 0) : Type 0 where
  pub hypothesis_id : String
  pub statement : String
  pub related_entity_ids : List String
  pub related_relation_ids : List String
  pub confidence : F
  pub status : String

pub data RevisionTargetKind : Type 0 where
  entity_add entity_update entity_remove : RevisionTargetKind
  relation_add relation_update relation_remove : RevisionTargetKind
  hypothesis_add hypothesis_update hypothesis_remove : RevisionTargetKind
  goal_update tension_update anchor_add self_update : RevisionTargetKind
  other_target : String → RevisionTargetKind

pub record RevisionDelta (F : Type 0) : Type 0 where
  pub delta_id : String
  pub target_kind : RevisionTargetKind
  pub target_ref : String
  pub before_summary : String
  pub after_summary : String
  pub justification : String
  pub raw_value : Value F  -- `Value.null` for None

-- the text of a target kind, as an f-string shows it
unfoldable pub target_text : RevisionTargetKind → String
target_text entity_add = "entity_add"
target_text entity_update = "entity_update"
target_text entity_remove = "entity_remove"
target_text relation_add = "relation_add"
target_text relation_update = "relation_update"
target_text relation_remove = "relation_remove"
target_text hypothesis_add = "hypothesis_add"
target_text hypothesis_update = "hypothesis_update"
target_text hypothesis_remove = "hypothesis_remove"
target_text goal_update = "goal_update"
target_text tension_update = "tension_update"
target_text anchor_add = "anchor_add"
target_text self_update = "self_update"
target_text (other_target s) = s
