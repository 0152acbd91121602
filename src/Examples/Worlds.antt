-- ===== src/Examples/Worlds.antt =====
-- The world model of src/cee_core/world_state.py, the revisions and the event log on concrete inputs.
use cognitive_execution_engi.Prelude.{
  ℕ, ◌+◌, String, ◌≡◌, refl, true, false, ◌||◌, ◌&&◌, List, [], ◌∷◌, ◌++◌, some, length, ◌<>◌, show,
  contains, truthy, last_segment, read_int, negsuc, strip_prefix, show_int,
}
use cognitive_execution_engi.Outcome.{ok, raise, Returns, type_error}
use cognitive_execution_engi.World.State.{WorldState, is_fact_anchored, find_hypothesis}
use cognitive_execution_engi.World.Update.{
  next_state_id, remove_entity, update_hypothesis_status, advance,
}
use cognitive_execution_engi.World.Change.{Change, apply, apply_all}
use cognitive_execution_engi.World.Identity.{all_refs, apply_all-ws}
use cognitive_execution_engi.World.Shape.{all_linked, known, apply-all_linked}
use cognitive_execution_engi.Revision.{revise_from_commitment, revision_event}
use cognitive_execution_engi.Revision.Effect.{relabel, status_of, revise_from_commitment-effect}
use cognitive_execution_engi.EventLog.{by_trace}
use cognitive_execution_engi.EventLog.Replay.{apply_revision}
use cognitive_execution_engi.EventLog.Queries.{traced, any_untraced, by_trace_lem}
use cognitive_execution_engi.EventLog.Revise.{
  knows_any, apply_revision-effect, apply_revision-discarded,
}
use cognitive_execution_engi.Examples.{
  fixed_point, house, room, push, request, discarding, commitment_record,
}

last_segment_test : last_segment "ws_a_12" ≡ "12"
unfolding last_segment
last_segment_test = refl

read_int_test : read_int " -12 " ≡ some (negsuc 11)
unfolding read_int
read_int_test = refl

show_test : show 1203 ≡ "1203"
unfolding show
show_test = refl

abbrev changes : List (Change ℕ)
changes = Change.remove_entity "door" "e1" ∷ Change.add_facts ("the door is gone" ∷ []) "" ∷ []

house_id : house.state_id ≡ "ws_" <> show 4
unfolding show
house_id = refl

apply_all-ws_example :
    Returns
      (λ last.
        (last.state_id ≡ "ws_" <> show (4 + length changes))
        × (last.provenance_refs ≡ house.provenance_refs ++ all_refs changes))
      (apply_all house changes)
apply_all-ws_example = apply_all-ws 4 house changes house_id

abbrev removal : Change ℕ
removal = Change.remove_entity "door" "e1"

-- the house without its door, and so without the relation
abbrev emptied : WorldState ℕ
emptied = record house {
  state_id = "ws_5";
  parent_state_id = some "ws_4";
  entities = room ∷ [];
  relations = [];
  provenance_refs = "e1" ∷ [];
}

house-emptied : apply house (Change.remove_entity "door" "e1") ≡ ok emptied
unfolding apply remove_entity advance next_state_id strip_prefix read_int last_segment show_int
house-emptied = refl

house-all_linked : all_linked house.entities house.relations ≡ true
unfolding all_linked known
house-all_linked = refl

apply-all_linked_example : all_linked emptied.entities emptied.relations ≡ true
apply-all_linked_example =
    apply-all_linked house (Change.remove_entity "door" "e1") house-all_linked refl emptied
      house-emptied

abbrev confirmed : WorldState ℕ
confirmed = record house {
  state_id = "ws_5";
  parent_state_id = some "ws_4";
  hypotheses =
      record {
        hypothesis_id = "h1";
        statement = "the door is locked";
        related_entity_ids = "door" ∷ [];
        related_relation_ids = [];
        confidence = 9000;
        status = "active";
      }
      ∷ [];
  provenance_refs = "e1" ∷ [];
}

house-confirmed : update_hypothesis_status house "h1" "active" 9000 "e1" ≡ ok confirmed
unfolding update_hypothesis_status advance next_state_id strip_prefix read_int last_segment show_int
house-confirmed = refl

revise_from_commitment-effect_example :
    Returns
      (λ (made, next).
        (next.state_id ≡ "ws_5")
        × (next.entities ≡ house.entities)
        × (next.relations ≡ house.relations)
        × ((fact : String)
            → is_fact_anchored next fact
              ≡ (is_fact_anchored house fact || contains fact ("the door is open" ∷ [])))
        × ((id : String)
            → status_of next id
              ≡ relabel
                  (contains id ("h1" ∷ []))
                  "active"
                  (relabel (contains id ("h1" ∷ [])) "rejected" (status_of house id))))
      (revise_from_commitment house push discarding)
revise_from_commitment-effect_example =
    revise_from_commitment-effect house push discarding 4 house_id

house-knows_any : knows_any house ("h1" ∷ []) ≡ true
unfolding knows_any find_hypothesis
house-knows_any = refl

apply_revision-discarded_example :
    apply_revision house (revision_event house push discarding)
    ≡ raise (
        type_error
          "update_hypothesis_status() missing 1 required positional argument: 'new_confidence'")
apply_revision-discarded_example = apply_revision-discarded house push discarding house-knows_any

house-knows_none : knows_any house [] ≡ false
unfolding knows_any
house-knows_none = refl

apply_revision-effect_example :
    Returns
      (λ next.
        (next.state_id ≡ "ws_5")
        × (next.entities ≡ house.entities)
        × (next.relations ≡ house.relations)
        × (next.hypotheses ≡ house.hypotheses)
        × ((fact : String)
            → is_fact_anchored next fact ≡ (
                is_fact_anchored house fact
                || (truthy fact && contains fact ("the door is open" ∷ [])))))
      (apply_revision house (revision_event house push request))
apply_revision-effect_example = apply_revision-effect house push request 4 house_id house-knows_none

by_trace_lem_example :
    by_trace "t" (commitment_record ∷ [])
    ≡ traced (any_untraced (commitment_record ∷ [])) "t" (commitment_record ∷ [])
by_trace_lem_example = by_trace_lem "t" (commitment_record ∷ [])
