-- ===== src/Revision.antt =====
-- src/cee_core/revision.py: model revision events, and the revision that follows a commitment. The
-- proofs are in `Effect`, the policy of src/cee_core/revision_policy.py in `Policy`.
pub mod Policy
pub mod Effect
use cognitive_execution_engi.Prelude.{
  ℕ, ◌+◌, String, Bool, true, false, List, [], ◌∷◌, ◌++◌, map, Option, none, some, ◌<>◌, show,
  if◌then◌else◌,
}
use cognitive_execution_engi.Value
use cognitive_execution_engi.Value.{Platform, fmin}
use cognitive_execution_engi.Outcome.{Outcome, ok, ◌>>=◌}
use cognitive_execution_engi.World.Schema.{
  RevisionDelta, WorldHypothesis, anchor_add, hypothesis_update, hypothesis_remove,
}
use cognitive_execution_engi.World.State.{WorldState, find_hypothesis}
use cognitive_execution_engi.World.Update.{update_hypothesis_status, add_anchor_facts}
use cognitive_execution_engi.Commitment.{CommitmentEvent}

pub data RevisionKind : Type 0 where
  confirmation correction expansion compression recalibration : RevisionKind
  other_revision : String → RevisionKind

pub record ModelRevisionEvent (F : Type 0) : Type 0 where
  pub revision_id : String
  pub prior_state_id : String
  pub caused_by_event_id : String
  pub revision_kind : RevisionKind
  pub deltas : List (RevisionDelta F)
  pub discarded_hypothesis_ids : List String
  pub strengthened_hypothesis_ids : List String
  pub new_anchor_fact_summaries : List String
  pub resulting_state_id : String
  pub revision_summary : String

module _ {F : Type 0} where
  -- the deltas of the new facts, numbered from `n + 1`
  unfoldable pub anchor_deltas : String → ℕ → List String → List (RevisionDelta F)
  anchor_deltas event n [] = []
  anchor_deltas event n (fact ∷ facts) =
      record {
        delta_id = "delta-anchor-" <> show (n + 1);
        target_kind = anchor_add;
        target_ref = fact;
        before_summary = "fact not anchored";
        after_summary = fact;
        justification = "anchored by event " <> event;
        raw_value = Value.null;
      }
      ∷ anchor_deltas event (n + 1) facts

  abbrev pub strengthen_delta : String → String → RevisionDelta F
  strengthen_delta event id = record {
    delta_id = "delta-hyp-strengthen-" <> id;
    target_kind = hypothesis_update;
    target_ref = id;
    before_summary = "hypothesis tentative/uncertain";
    after_summary = "hypothesis strengthened";
    justification = "supported by event " <> event;
    raw_value = Value.null;
  }

  abbrev pub discard_delta : String → String → RevisionDelta F
  discard_delta event id = record {
    delta_id = "delta-hyp-discard-" <> id;
    target_kind = hypothesis_remove;
    target_ref = id;
    before_summary = "hypothesis active/tentative";
    after_summary = "hypothesis rejected";
    justification = "contradicted by event " <> event;
    raw_value = Value.null;
  }

-- the parameters of `revise_from_commitment` besides the state and the event
pub record Request : Type 0 where
  pub revision_id : String
  pub resulting_state_id : String
  pub strengthened_hypothesis_ids : List String
  pub discarded_hypothesis_ids : List String
  pub new_anchor_fact_summaries : List String
  pub revision_summary : String

unfoldable pub kind_of : List String → List String → RevisionKind
kind_of (id ∷ discarded) facts = correction
kind_of [] (fact ∷ facts) = expansion
kind_of [] [] = confirmation

module _ {F : Type 0} ⦃p : Platform F⦄ where
  -- the loop over the discarded ids
  unfoldable pub discard_all : String → WorldState F → List String → Outcome (WorldState F)
  discard_all ref state [] = ok state
  discard_all ref state (id ∷ ids) = do
    next ← update_hypothesis_status state id "rejected" (p.decimal 0 0) ref
    discard_all ref next ids

  -- `min(1.0, (h.confidence if h else 0.5) + 0.2)`
  unfoldable pub strengthened : Option (WorldHypothesis F) → F
  strengthened none = fmin (p.decimal 1 0) (p.add (p.decimal 5 1) (p.decimal 2 1))
  strengthened (some h) = fmin (p.decimal 1 0) (p.add h.confidence (p.decimal 2 1))

  -- the loop over the strengthened ids
  unfoldable pub strengthen_all : String → WorldState F → List String → Outcome (WorldState F)
  strengthen_all ref state [] = ok state
  strengthen_all ref state (id ∷ ids) = do
    next ← update_hypothesis_status state id "active" (strengthened (find_hypothesis state id)) ref
    strengthen_all ref next ids

  unfoldable pub anchor_all : String → WorldState F → List String → Outcome (WorldState F)
  anchor_all ref state [] = ok state
  anchor_all ref state (fact ∷ facts) = add_anchor_facts state (fact ∷ facts) ref

  unfoldable pub revision_event : WorldState F → CommitmentEvent F → Request → ModelRevisionEvent F
  unfolding anchor_deltas kind_of
  revision_event state event q = record {
    revision_id = q.revision_id;
    prior_state_id = state.state_id;
    caused_by_event_id = event.event_id;
    revision_kind = kind_of q.discarded_hypothesis_ids q.new_anchor_fact_summaries;
    deltas =
        anchor_deltas event.event_id 0 q.new_anchor_fact_summaries
        ++ (map (strengthen_delta event.event_id) q.strengthened_hypothesis_ids
            ++ map (discard_delta event.event_id) q.discarded_hypothesis_ids);
    discarded_hypothesis_ids = q.discarded_hypothesis_ids;
    strengthened_hypothesis_ids = q.strengthened_hypothesis_ids;
    new_anchor_fact_summaries = q.new_anchor_fact_summaries;
    resulting_state_id = q.resulting_state_id;
    revision_summary = q.revision_summary;
  }

  -- The event is built first and cannot fail.
  unfoldable pub revise_from_commitment :
      WorldState F → CommitmentEvent F → Request → Outcome (ModelRevisionEvent F × WorldState F)
  unfolding revision_event
  revise_from_commitment state event q = do
    let ref = "revision:" <> q.revision_id
    discarded ← discard_all ref state q.discarded_hypothesis_ids
    active ← strengthen_all ref discarded q.strengthened_hypothesis_ids
    anchored ← anchor_all ref active q.new_anchor_fact_summaries
    ok (revision_event state event q, record anchored { state_id = q.resulting_state_id })
