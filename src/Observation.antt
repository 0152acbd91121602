-- ===== src/Observation.antt =====
-- src/cee_core/observations.py and src/cee_core/belief_update.py: observations made of tool results,
-- and the belief deltas made of observations. Belief and reflection candidates of the model are not
-- modelled.
use cognitive_execution_engi.Prelude.{
  ℕ, zero, suc, String, ◌==◌, Bool, true, false, List, [], ◌∷◌, Option, none, some, ◌<>◌, ℤ, pos,
  all_spaces, if◌then◌else◌, or_else,
}
use cognitive_execution_engi.Value
use cognitive_execution_engi.Value.{
  Value, Values, Entries, Platform, get, items, append, sequence, fmax, fmin, to_float,
}
use cognitive_execution_engi.Outcome.{Outcome, ok, raise, ◌>>=◌, value_error, type_error}
use cognitive_execution_engi.World.Schema.{RevisionDelta, entity_update}
use cognitive_execution_engi.Tools.{ToolResultEvent, ToolStatus, succeeded, failed}

pub record ObservationCandidate (F : Type 0) : Type 0 where
  pub source_tool : String
  pub call_id : String
  pub content : Value F
  pub confidence : F
  pub evidence_weight : F
  pub provenance : List String

pub record ObservationEvent (F : Type 0) : Type 0 where
  pub observation : ObservationCandidate F
  pub actor : String

-- `s[:n]`
unfoldable pub first_chars : ℕ → String → String
first_chars zero s = ""
first_chars (suc n) String.[] = String.[]
first_chars (suc n) (String.◌∷◌ c s) = String.◌∷◌ c (first_chars n s)

module _ {F : Type 0} ⦃p : Platform F⦄ where
  unfoldable pub observe_status : ToolStatus → ToolResultEvent F → Outcome (ObservationCandidate F)
  observe_status failed event =
      raise (value_error "Only succeeded tool results can become observations")
  observe_status succeeded event = ok (record {
    source_tool = event.tool_name;
    call_id = event.call_id;
    content = event.result;
    confidence = p.decimal 8 1;
    evidence_weight = p.decimal 1 0;
    provenance = ("tool:" <> event.tool_name) ∷ ("call:" <> event.call_id) ∷ [];
  })

  unfoldable pub observation_from_tool_result : ToolResultEvent F → Outcome (ObservationCandidate F)
  unfolding observe_status
  observation_from_tool_result event = observe_status event.status event

  unfoldable pub normalize_confidence : F → F
  normalize_confidence x = fmax (p.decimal 0 0) (fmin (p.decimal 1 0) x)

  unfoldable pub normalize_weight : F → F
  normalize_weight x = fmax (p.decimal 1 1) x

module _ {F : Type 0} where
  abbrev pub build_observation_event : ObservationCandidate F → String → ObservationEvent F
  build_observation_event o actor = record { observation = o; actor = actor }

  -- `text in values`
  unfoldable pub holds_text : String → Values F → Bool
  holds_text s Value.nil = false
  holds_text s (Value.cons (Value.str t) vs) = if t == s then true else holds_text s vs
  holds_text s (Value.cons _ vs) = holds_text s vs

  -- the loop that adds what is not there yet
  unfoldable pub merge_provenance : Values F → List String → Values F
  unfolding holds_text append
  merge_provenance known [] = known
  merge_provenance known (s ∷ ss) =
      merge_provenance (if holds_text s known then known else append known (Value.str s)) ss

  unfoldable pub texts : List String → Values F
  texts [] = Value.nil
  texts (s ∷ ss) = Value.cons (Value.str s) (texts ss)

  -- `list(v)` of an entry that may be missing; only lists and tuples are modelled
  unfoldable pub list_of : Option (Value F) → Outcome (Values F)
  list_of none = ok Value.nil
  list_of (some (Value.list vs)) = ok vs
  list_of (some (Value.tuple vs)) = ok vs
  list_of (some _) = raise (type_error "object is not a list")

-- what the two branches of `build_belief_payload` compute
pub record Belief (F : Type 0) : Type 0 where
  confidence : F
  evidence_count : ℤ
  provenance : Values F
  history : Values F

module _ {F : Type 0} ⦃p : Platform F⦄ where
  history_entry : ObservationCandidate F → F → F → Value F
  history_entry o confidence weight = Value.dict (
      Value.entry "call_id" (Value.str o.call_id) (
        Value.entry "source_tool" (Value.str o.source_tool) (
          Value.entry "confidence" (Value.float confidence)
            (Value.entry "evidence_weight" (Value.float weight) Value.end))))

  -- `float(d.get(key, default))`
  float_at : String → F → Entries F → Outcome F
  unfolding to_float get
  float_at key default d = to_float (or_else (get key d) (Value.float default))

  -- with no prior belief
  first_belief : ObservationCandidate F → F → F → Belief F
  unfolding history_entry texts
  first_belief o confidence weight = record {
    confidence = confidence;
    evidence_count = pos 1;
    provenance = texts o.provenance;
    history = Value.cons (history_entry o confidence weight) Value.nil;
  }

  -- the average of the prior confidence and the observed one, by weight
  updated_belief : ObservationCandidate F → F → F → Entries F → Outcome (Belief F)
  unfolding history_entry merge_provenance float_at list_of normalize_confidence append
  updated_belief o confidence weight prior = do
    given ← float_at "confidence" (p.decimal 0 0) prior
    let prior_confidence = normalize_confidence given
    count ← elim (get "evidence_count" prior) [ none ↦ ok (p.decimal 1 0) | some v ↦ to_float v ]
    let prior_weight = fmax count (p.decimal 1 0)
    known ← list_of (get "provenance" prior)
    history ← list_of (get "evidence_history" prior)
    ok (record {
      confidence =
          p.div (p.add (p.mul prior_confidence prior_weight) (p.mul confidence weight))
            (p.add prior_weight weight);
      evidence_count = p.floor (p.add prior_weight weight);
      provenance = merge_provenance known o.provenance;
      history = append history (history_entry o confidence weight);
    })

  payload_of : ObservationCandidate F → F → Belief F → Entries F
  payload_of o weight b = Value.entry "content" o.content (
      Value.entry "confidence" (Value.float (p.round4 b.confidence)) (
        Value.entry "provenance" (Value.list b.provenance) (
          Value.entry "source_tool" (Value.str o.source_tool) (
            Value.entry "call_id" (Value.str o.call_id) (
              Value.entry "evidence_weight" (Value.float weight) (
                Value.entry "evidence_count" (Value.int b.evidence_count)
                  (Value.entry "evidence_history" (Value.list b.history) Value.end)))))))

  unfoldable pub belief_of :
      ObservationCandidate F → F → F → Option (Entries F) → Outcome (Belief F)
  unfolding first_belief updated_belief
  belief_of o confidence weight none = ok (first_belief o confidence weight)
  belief_of o confidence weight (some prior) = updated_belief o confidence weight prior

  unfoldable pub build_belief_payload :
      ObservationCandidate F → Option (Entries F) → Option F → Outcome (Entries F)
  unfolding belief_of payload_of normalize_weight normalize_confidence
  build_belief_payload o prior weight = do
    let effective = normalize_weight (or_else weight o.evidence_weight)
    belief ← belief_of o (normalize_confidence o.confidence) effective prior
    ok (payload_of o effective belief)

  -- `str(payload.get("content", ""))[:200]`
  summary_of : Entries F → String
  unfolding first_chars get
  summary_of payload = first_chars 200 (p.text (or_else (get "content" payload) (Value.str "")))

  unfoldable pub promote_observation_to_belief_delta :
      ObservationCandidate F → String → Option (Entries F) → Option F → Outcome (RevisionDelta F)
  unfolding build_belief_payload summary_of
  promote_observation_to_belief_delta o key prior weight =
      if all_spaces key then raise (value_error "belief_key cannot be empty") else (do
        payload ← build_belief_payload o prior weight
        ok (record {
          delta_id = "delta-belief-" <> key;
          target_kind = entity_update;
          target_ref = "beliefs." <> key;
          before_summary = "belief not set";
          after_summary = summary_of payload;
          justification = "promote observation from " <> o.source_tool;
          raw_value = Value.dict payload;
        }))

  -- `promote_observation_to_delta`
  unfoldable pub promote_observation_to_delta :
      ObservationCandidate F → String → Outcome (RevisionDelta F)
  unfolding promote_observation_to_belief_delta
  promote_observation_to_delta o key = promote_observation_to_belief_delta o key none none
