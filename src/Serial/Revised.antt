-- ===== src/Serial/Revised.antt =====
-- src/cee_core/revision.py: `ModelRevisionEvent` as a payload.
use cognitive_execution_engi.Prelude.{
  every, String, ◌≡◌, refl, [], ◌∷◌, true, false, Bool, ◌==◌, if◌then◌else◌,
}
use cognitive_execution_engi.Value.{Value, Entries, Platform, nil}
use cognitive_execution_engi.Outcome.{Outcome, ok, ◌>>=◌}
use cognitive_execution_engi.Schemas.{require_schema_version}
use cognitive_execution_engi.Serial.{
  dict_of, required, optional, as_text, as_texts, texts, write_each, read_each, as_texts-texts,
}
use cognitive_execution_engi.Revision.{
  ModelRevisionEvent, RevisionKind, other_revision, confirmation, correction, expansion,
  compression, recalibration,
}
use cognitive_execution_engi.Serial.Delta.{write_delta, read_delta, deltas_back, listed_delta}

-- `REVISION_SCHEMA_VERSION`
abbrev revision_schema_version : String
revision_schema_version = "cee.revision.v1"

unfoldable pub revision_kind_text : RevisionKind → String
revision_kind_text confirmation = "confirmation"
revision_kind_text correction = "correction"
revision_kind_text expansion = "expansion"
revision_kind_text compression = "compression"
revision_kind_text recalibration = "recalibration"
revision_kind_text (other_revision s) = s

-- the kind with the given text
unfoldable pub revision_kind_of : String → RevisionKind
revision_kind_of s =
    if s == "confirmation"
    then confirmation
    else if s == "correction"
    then correction
    else if s == "expansion"
    then expansion
    else if s == "compression"
    then compression
    else if s == "recalibration"
    then recalibration
    else other_revision s

-- one that the source lists
abbrev pub listed_revision : RevisionKind → Bool
listed_revision (other_revision s) = false
listed_revision _ = true

pub revision_kind_of-revision_kind_text :
    (k : RevisionKind) → listed_revision k ≡ true → revision_kind_of (revision_kind_text k) ≡ k
unfolding revision_kind_of revision_kind_text
revision_kind_of-revision_kind_text (other_revision s) h = absurd (cc)
revision_kind_of-revision_kind_text confirmation h = refl
revision_kind_of-revision_kind_text correction h = refl
revision_kind_of-revision_kind_text expansion h = refl
revision_kind_of-revision_kind_text compression h = refl
revision_kind_of-revision_kind_text recalibration h = refl

module _ {F : Type 0} where
  unfoldable pub as_revision_kind : Value F → Outcome RevisionKind
  unfolding as_text revision_kind_of
  as_revision_kind v = do s ← as_text v; ok (revision_kind_of s)

module _ {F : Type 0} where
  unfoldable pub to_dict : ModelRevisionEvent F → Entries F
  unfolding dict_of texts write_each write_delta revision_kind_text
  to_dict r = dict_of (
      ("schema_version", Value.str revision_schema_version)
      ∷ ("event_type", Value.str "revision")
      ∷ ("revision_id", Value.str r.revision_id)
      ∷ ("prior_state_id", Value.str r.prior_state_id)
      ∷ ("caused_by_event_id", Value.str r.caused_by_event_id)
      ∷ ("revision_kind", Value.str (revision_kind_text r.revision_kind))
      ∷ ("deltas", write_each write_delta r.deltas)
      ∷ ("discarded_hypothesis_ids", texts r.discarded_hypothesis_ids)
      ∷ ("strengthened_hypothesis_ids", texts r.strengthened_hypothesis_ids)
      ∷ ("new_anchor_fact_summaries", texts r.new_anchor_fact_summaries)
      ∷ ("resulting_state_id", Value.str r.resulting_state_id)
      ∷ ("revision_summary", Value.str r.revision_summary)
      ∷ [])

module _ {F : Type 0} ⦃p : Platform F⦄ where
  unfoldable pub from_dict : Entries F → Outcome (ModelRevisionEvent F)
  unfolding require_schema_version required optional as_text as_texts read_each read_delta
      as_revision_kind
  from_dict payload = do
    revision_id ← required "revision_id" payload >>= as_text
    prior_state_id ← required "prior_state_id" payload >>= as_text
    caused_by_event_id ← required "caused_by_event_id" payload >>= as_text
    revision_kind ← required "revision_kind" payload >>= as_revision_kind
    deltas ← read_each read_delta (optional "deltas" (Value.list nil) payload)
    discarded_hypothesis_ids ←
        as_texts (optional "discarded_hypothesis_ids" (Value.tuple nil) payload)
    strengthened_hypothesis_ids ←
        as_texts (optional "strengthened_hypothesis_ids" (Value.tuple nil) payload)
    new_anchor_fact_summaries ←
        as_texts (optional "new_anchor_fact_summaries" (Value.tuple nil) payload)
    resulting_state_id ← as_text (optional "resulting_state_id" (Value.str "") payload)
    revision_summary ← as_text (optional "revision_summary" (Value.str "") payload)
    ok (record {
      revision_id = revision_id;
      prior_state_id = prior_state_id;
      caused_by_event_id = caused_by_event_id;
      revision_kind = revision_kind;
      deltas = deltas;
      discarded_hypothesis_ids = discarded_hypothesis_ids;
      strengthened_hypothesis_ids = strengthened_hypothesis_ids;
      new_anchor_fact_summaries = new_anchor_fact_summaries;
      resulting_state_id = resulting_state_id;
      revision_summary = revision_summary;
    })

  -- A revision event that is written as a payload is read back, provided that its kind and the target
  -- kinds of its deltas are ones that the source lists.
  pub revision_event_back :
      (r : ModelRevisionEvent F)
      → listed_revision r.revision_kind ≡ true
      → every listed_delta r.deltas ≡ true
      → from_dict (to_dict r) ≡ ok r
  unfolding from_dict to_dict require_schema_version required optional dict_of as_text
      as_revision_kind
  revision_event_back r h k =
      rw
        (
          revision_kind_of-revision_kind_text r.revision_kind h,
          deltas_back r.deltas k,
          as_texts-texts F r.discarded_hypothesis_ids,
          as_texts-texts F r.strengthened_hypothesis_ids,
          as_texts-texts F r.new_anchor_fact_summaries,
        )
        refl
