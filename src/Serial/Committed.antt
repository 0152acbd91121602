-- ===== src/Serial/Committed.antt =====
-- src/cee_core/commitment.py: `CommitmentEvent` as a payload.
use cognitive_execution_engi.Prelude.{
  String, ◌≡◌, refl, [], ◌∷◌, true, false, Bool, ◌==◌, if◌then◌else◌,
}
use cognitive_execution_engi.Value.{Value, Entries, Platform, nil}
use cognitive_execution_engi.Outcome.{Outcome, ok, ◌>>=◌}
use cognitive_execution_engi.Schemas.{require_schema_version}
use cognitive_execution_engi.Serial.{
  dict_of, required, optional, as_text, as_float, as_bool, as_texts, texts, as_texts-texts,
}
use cognitive_execution_engi.Commitment.{
  CommitmentEvent, CommitmentKind, Reversibility, kind_text, other_kind, other_reversibility,
  observe, act, tool_contact, internal_commit, reversible, partially_reversible, irreversible,
}

-- `COMMITMENT_SCHEMA_VERSION`
abbrev commitment_schema_version : String
commitment_schema_version = "cee.commitment.v1"

unfoldable pub reversibility_text : Reversibility → String
reversibility_text reversible = "reversible"
reversibility_text partially_reversible = "partially_reversible"
reversibility_text irreversible = "irreversible"
reversibility_text (other_reversibility s) = s

-- the kind with the given text
unfoldable pub kind_of : String → CommitmentKind
kind_of s =
    if s == "observe"
    then observe
    else if s == "act"
    then act
    else if s == "tool_contact"
    then tool_contact
    else if s == "internal_commit"
    then internal_commit
    else other_kind s

-- one that the source lists
abbrev pub listed_kind : CommitmentKind → Bool
listed_kind (other_kind s) = false
listed_kind _ = true

pub kind_of-kind_text : (k : CommitmentKind) → listed_kind k ≡ true → kind_of (kind_text k) ≡ k
unfolding kind_of kind_text
kind_of-kind_text (other_kind s) h = absurd (cc)
kind_of-kind_text observe h = refl
kind_of-kind_text act h = refl
kind_of-kind_text tool_contact h = refl
kind_of-kind_text internal_commit h = refl

-- the reversibility with the given text
unfoldable pub reversibility_of : String → Reversibility
reversibility_of s =
    if s == "reversible"
    then reversible
    else if s == "partially_reversible"
    then partially_reversible
    else if s == "irreversible"
    then irreversible
    else other_reversibility s

-- one that the source lists
abbrev pub listed_reversibility : Reversibility → Bool
listed_reversibility (other_reversibility s) = false
listed_reversibility _ = true

pub reversibility_of-reversibility_text :
    (k : Reversibility)
    → listed_reversibility k ≡ true
    → reversibility_of (reversibility_text k) ≡ k
unfolding reversibility_of reversibility_text
reversibility_of-reversibility_text (other_reversibility s) h = absurd (cc)
reversibility_of-reversibility_text reversible h = refl
reversibility_of-reversibility_text partially_reversible h = refl
reversibility_of-reversibility_text irreversible h = refl

module _ {F : Type 0} where
  unfoldable pub as_kind : Value F → Outcome CommitmentKind
  unfolding as_text kind_of
  as_kind v = do s ← as_text v; ok (kind_of s)

module _ {F : Type 0} where
  unfoldable pub as_reversibility : Value F → Outcome Reversibility
  unfolding as_text reversibility_of
  as_reversibility v = do s ← as_text v; ok (reversibility_of s)

module _ {F : Type 0} where
  unfoldable pub to_dict : CommitmentEvent F → Entries F
  unfolding dict_of texts kind_text reversibility_text
  to_dict r = dict_of (
      ("schema_version", Value.str commitment_schema_version)
      ∷ ("event_type", Value.str "commitment")
      ∷ ("event_id", Value.str r.event_id)
      ∷ ("source_state_id", Value.str r.source_state_id)
      ∷ ("commitment_kind", Value.str (kind_text r.commitment_kind))
      ∷ ("intent_summary", Value.str r.intent_summary)
      ∷ ("expected_world_change", texts r.expected_world_change)
      ∷ ("expected_self_change", texts r.expected_self_change)
      ∷ ("affected_entity_ids", texts r.affected_entity_ids)
      ∷ ("affected_relation_ids", texts r.affected_relation_ids)
      ∷ ("action_summary", Value.str r.action_summary)
      ∷ ("external_result_summary", Value.str r.external_result_summary)
      ∷ ("observation_summaries", texts r.observation_summaries)
      ∷ ("success", Value.bool r.success)
      ∷ ("reversibility", Value.str (reversibility_text r.reversibility))
      ∷ ("requires_approval", Value.bool r.requires_approval)
      ∷ ("cost", Value.float r.cost)
      ∷ ("risk_realized", Value.float r.risk_realized)
      ∷ [])

module _ {F : Type 0} ⦃p : Platform F⦄ where
  unfoldable pub from_dict : Entries F → Outcome (CommitmentEvent F)
  unfolding require_schema_version required optional as_text as_texts as_bool as_float as_kind
      as_reversibility
  from_dict payload = do
    event_id ← required "event_id" payload >>= as_text
    source_state_id ← required "source_state_id" payload >>= as_text
    commitment_kind ← required "commitment_kind" payload >>= as_kind
    intent_summary ← required "intent_summary" payload >>= as_text
    expected_world_change ← as_texts (optional "expected_world_change" (Value.tuple nil) payload)
    expected_self_change ← as_texts (optional "expected_self_change" (Value.tuple nil) payload)
    affected_entity_ids ← as_texts (optional "affected_entity_ids" (Value.tuple nil) payload)
    affected_relation_ids ← as_texts (optional "affected_relation_ids" (Value.tuple nil) payload)
    action_summary ← as_text (optional "action_summary" (Value.str "") payload)
    external_result_summary ← as_text (optional "external_result_summary" (Value.str "") payload)
    observation_summaries ← as_texts (optional "observation_summaries" (Value.tuple nil) payload)
    success ← as_bool (optional "success" (Value.bool true) payload)
    reversibility ← as_reversibility (optional "reversibility" (Value.str "reversible") payload)
    requires_approval ← as_bool (optional "requires_approval" (Value.bool false) payload)
    cost ← as_float (optional "cost" (Value.float (p.decimal 0 0)) payload)
    risk_realized ← as_float (optional "risk_realized" (Value.float (p.decimal 0 0)) payload)
    ok (record {
      event_id = event_id;
      source_state_id = source_state_id;
      commitment_kind = commitment_kind;
      intent_summary = intent_summary;
      expected_world_change = expected_world_change;
      expected_self_change = expected_self_change;
      affected_entity_ids = affected_entity_ids;
      affected_relation_ids = affected_relation_ids;
      action_summary = action_summary;
      external_result_summary = external_result_summary;
      observation_summaries = observation_summaries;
      success = success;
      reversibility = reversibility;
      requires_approval = requires_approval;
      cost = cost;
      risk_realized = risk_realized;
    })

  -- A commitment event that is written as a payload is read back, provided that its kind and its
  -- reversibility are ones that the source lists.
  pub commitment_event_back :
      (r : CommitmentEvent F)
      → listed_kind r.commitment_kind ≡ true
      → listed_reversibility r.reversibility ≡ true
      → from_dict (to_dict r) ≡ ok r
  unfolding from_dict to_dict require_schema_version required optional dict_of as_text as_bool
      as_float as_kind as_reversibility
  commitment_event_back r h k =
      rw
        (
          kind_of-kind_text r.commitment_kind h,
          reversibility_of-reversibility_text r.reversibility k,
          as_texts-texts F r.expected_world_change,
          as_texts-texts F r.expected_self_change,
          as_texts-texts F r.affected_entity_ids,
          as_texts-texts F r.affected_relation_ids,
          as_texts-texts F r.observation_summaries,
        )
        refl
