-- ===== src/Serial/Delta.antt =====
-- src/cee_core/world_schema.py: `RevisionDelta` as a payload. A raw value None is left out.
use cognitive_execution_engi.Prelude.{
  every, String, ◌≡◌, refl, List, [], ◌∷◌, true, false, Bool, ◌==◌, if◌then◌else◌,
}
use cognitive_execution_engi.Value.{Value, Entries, Platform, get}
use cognitive_execution_engi.Outcome.{Outcome, ok, ◌>>=◌}
use cognitive_execution_engi.Schemas.{require_schema_version}
use cognitive_execution_engi.Serial.{
  dict_of, required, optional, as_text, as_dict, write_each, read_each, read_each-write_each,
}
use cognitive_execution_engi.World.Schema.{
  RevisionDelta, RevisionTargetKind, target_text, other_target, entity_add, entity_update,
  entity_remove, relation_add, relation_update, relation_remove, hypothesis_add, hypothesis_update,
  hypothesis_remove, goal_update, tension_update, anchor_add, self_update,
}
use cognitive_execution_engi.Serial.Entity.{world_schema_version}

-- the target kind with the given text
unfoldable pub target_of : String → RevisionTargetKind
target_of s =
    if s == "entity_add"
    then entity_add
    else if s == "entity_update"
    then entity_update
    else if s == "entity_remove"
    then entity_remove
    else if s == "relation_add"
    then relation_add
    else if s == "relation_update"
    then relation_update
    else if s == "relation_remove"
    then relation_remove
    else if s == "hypothesis_add"
    then hypothesis_add
    else if s == "hypothesis_update"
    then hypothesis_update
    else if s == "hypothesis_remove"
    then hypothesis_remove
    else if s == "goal_update"
    then goal_update
    else if s == "tension_update"
    then tension_update
    else if s == "anchor_add"
    then anchor_add
    else if s == "self_update"
    then self_update
    else other_target s

-- a kind that the source lists
abbrev pub listed_target : RevisionTargetKind → Bool
listed_target (other_target s) = false
listed_target _ = true

target_of-target_text :
    (k : RevisionTargetKind) → listed_target k ≡ true → target_of (target_text k) ≡ k
unfolding target_of target_text
target_of-target_text (other_target s) h = absurd (cc)
target_of-target_text entity_add h = refl
target_of-target_text entity_update h = refl
target_of-target_text entity_remove h = refl
target_of-target_text relation_add h = refl
target_of-target_text relation_update h = refl
target_of-target_text relation_remove h = refl
target_of-target_text hypothesis_add h = refl
target_of-target_text hypothesis_update h = refl
target_of-target_text hypothesis_remove h = refl
target_of-target_text goal_update h = refl
target_of-target_text tension_update h = refl
target_of-target_text anchor_add h = refl
target_of-target_text self_update h = refl

module _ {F : Type 0} where
  as_target : Value F → Outcome RevisionTargetKind
  unfolding as_text target_of
  as_target v = do s ← as_text v; ok (target_of s)

  -- `if self.raw_value is not None: d["raw_value"] = self.raw_value`
  raw_entry : Value F → List (String × Value F)
  raw_entry Value.null = []
  raw_entry v = ("raw_value", v) ∷ []

  raw_entry_back : (v : Value F) → optional "raw_value" Value.null (dict_of (raw_entry v)) ≡ v
  unfolding optional dict_of raw_entry get
  raw_entry_back Value.null = refl
  raw_entry_back _ = refl

module _ {F : Type 0} where
  unfoldable pub to_dict : RevisionDelta F → Entries F
  unfolding dict_of target_text raw_entry
  to_dict r = dict_of (
      ("schema_version", Value.str world_schema_version)
      ∷ ("delta_id", Value.str r.delta_id)
      ∷ ("target_kind", Value.str (target_text r.target_kind))
      ∷ ("target_ref", Value.str r.target_ref)
      ∷ ("before_summary", Value.str r.before_summary)
      ∷ ("after_summary", Value.str r.after_summary)
      ∷ ("justification", Value.str r.justification)
      ∷ raw_entry r.raw_value)

module _ {F : Type 0} ⦃p : Platform F⦄ where
  unfoldable pub from_dict : Entries F → Outcome (RevisionDelta F)
  unfolding require_schema_version required optional as_text as_target
  from_dict payload = do
    checked ← require_schema_version payload world_schema_version false
    delta_id ← required "delta_id" payload >>= as_text
    target_kind ← required "target_kind" payload >>= as_target
    target_ref ← required "target_ref" payload >>= as_text
    before_summary ← required "before_summary" payload >>= as_text
    after_summary ← required "after_summary" payload >>= as_text
    justification ← required "justification" payload >>= as_text
    ok (record {
      delta_id = delta_id;
      target_kind = target_kind;
      target_ref = target_ref;
      before_summary = before_summary;
      after_summary = after_summary;
      justification = justification;
      raw_value = optional "raw_value" Value.null payload;
    })

  pub from_dict-to_dict :
      (r : RevisionDelta F) → listed_target r.target_kind ≡ true → from_dict (to_dict r) ≡ ok r
  unfolding from_dict to_dict require_schema_version required optional dict_of as_text as_target
  from_dict-to_dict r h =
      rw (target_of-target_text r.target_kind h, raw_entry_back r.raw_value) refl

module _ {F : Type 0} where
  unfoldable pub write_delta : RevisionDelta F → Value F
  unfolding to_dict
  write_delta d = Value.dict (to_dict d)

module _ {F : Type 0} ⦃p : Platform F⦄ where
  unfoldable pub read_delta : Value F → Outcome (RevisionDelta F)
  unfolding as_dict from_dict
  read_delta v = as_dict v >>= from_dict

  -- its target kind is one that the source lists
  abbrev pub listed_delta : RevisionDelta F → Bool
  listed_delta d = listed_target d.target_kind

  pub deltas_back :
      (ds : List (RevisionDelta F))
      → every listed_delta ds ≡ true
      → read_each read_delta (write_each write_delta ds) ≡ ok ds
  unfolding read_delta write_delta as_dict
  deltas_back ds h = read_each-write_each write_delta read_delta listed_delta ds from_dict-to_dict h
