-- ===== src/EventLog/Replay.antt =====
-- src/cee_core/event_log.py: the replay of revision events into a world state.
pub mod Targets
use cognitive_execution_engi.Prelude.{
  String, ◌==◌, Bool, true, false, not, ◌&&◌, ◌||◌, List, [], ◌∷◌, ◌++◌, Option, none, some,
  if◌then◌else◌, truthy, contains,
}
use cognitive_execution_engi.Value.{Value, Platform, sequence}
use cognitive_execution_engi.Value
use cognitive_execution_engi.Outcome.{Outcome, ok, ◌>>=◌}
use cognitive_execution_engi.World.Schema.{
  RevisionDelta, RevisionTargetKind, entity_add, entity_update, hypothesis_add, hypothesis_update,
  hypothesis_remove, goal_update, anchor_add, self_update, other_target,
}
use cognitive_execution_engi.World.State.{WorldState, fresh_state}
use cognitive_execution_engi.World.Update.{add_anchor_facts}
use cognitive_execution_engi.Revision.{ModelRevisionEvent}
use cognitive_execution_engi.EventLog.{EventLog, revision_events}
use cognitive_execution_engi.EventLog.Replay.Targets.{
  apply_hypothesis_update, apply_hypothesis_remove, apply_hypothesis_add, apply_goal_update,
  apply_self_update, apply_entity,
}

-- `target_kind in ("hypothesis", "anchored_fact", "anchor_add")`
unfoldable pub is_anchor : RevisionTargetKind → Bool
is_anchor anchor_add = true
is_anchor (other_target s) = s == "hypothesis" || s == "anchored_fact"
is_anchor _ = false

module _ {F : Type 0} where
  -- the facts to anchor, with that of one more delta
  unfoldable pub collect : WorldState F → RevisionDelta F → List String → List String
  unfolding is_anchor
  collect ws delta anchors =
      if is_anchor delta.target_kind
        && (truthy delta.after_summary
            && not (contains delta.after_summary ws.anchored_fact_summaries))
      then anchors ++ delta.after_summary ∷ []
      else anchors

  -- the state that is stored after the deltas of a revision
  unfoldable pub seal : WorldState F → ModelRevisionEvent F → WorldState F
  seal ws rev = record ws {
    state_id = rev.resulting_state_id;
    provenance_refs = ws.provenance_refs ++ rev.revision_id ∷ [];
    parent_state_id = some ws.state_id;
  }

module _ {F : Type 0} ⦃p : Platform F⦄ where
  -- the tests on `target_kind`; each kind passes one of them
  unfoldable pub apply_kind :
      RevisionTargetKind → WorldState F → RevisionDelta F → String → Outcome (WorldState F)
  unfolding apply_hypothesis_update apply_hypothesis_remove apply_hypothesis_add apply_goal_update
      apply_self_update apply_entity
  apply_kind hypothesis_update ws delta ref = apply_hypothesis_update ws delta ref delta.raw_value
  apply_kind hypothesis_remove ws delta ref = apply_hypothesis_remove ws delta
  apply_kind hypothesis_add ws delta ref = apply_hypothesis_add ws delta ref delta.raw_value
  apply_kind goal_update ws delta ref = apply_goal_update ws (sequence delta.raw_value)
  apply_kind self_update ws delta ref = apply_self_update ws delta.target_ref delta.raw_value
  apply_kind entity_add ws delta ref = apply_entity ws delta.target_ref delta.raw_value
  apply_kind entity_update ws delta ref = apply_entity ws delta.target_ref delta.raw_value
  apply_kind _ ws delta ref = ok ws

  -- the loop over the deltas of one revision
  unfoldable pub apply_deltas :
      String
      → WorldState F
      → List String
      → List (RevisionDelta F)
      → Outcome (WorldState F × List String)
  unfolding collect apply_kind
  apply_deltas ref ws anchors [] = ok (ws, anchors)
  apply_deltas ref ws anchors (delta ∷ deltas) = do
    let found = collect ws delta anchors
    next ← apply_kind delta.target_kind ws delta ref
    apply_deltas ref next found deltas

  unfoldable pub anchor_new : WorldState F → List String → Outcome (WorldState F)
  anchor_new ws [] = ok ws
  anchor_new ws (fact ∷ facts) = add_anchor_facts ws (fact ∷ facts) ""

  -- `_apply_revision_to_world_state`
  unfoldable pub apply_revision : WorldState F → ModelRevisionEvent F → Outcome (WorldState F)
  unfolding seal apply_deltas anchor_new
  apply_revision ws rev = do
    (next, anchors) ← apply_deltas rev.revision_id ws [] rev.deltas
    anchored ← anchor_new next anchors
    ok (seal anchored rev)

  unfoldable pub replay_revisions :
      WorldState F → List (ModelRevisionEvent F) → Outcome (WorldState F)
  unfolding apply_revision
  replay_revisions ws [] = ok ws
  replay_revisions ws (rev ∷ revs) = do next ← apply_revision ws rev; replay_revisions next revs

  -- `EventLog.replay_world_state`; the commitments are read and change nothing
  unfoldable pub replay_world_state : Option (WorldState F) → EventLog F → Outcome (WorldState F)
  unfolding revision_events replay_revisions
  replay_world_state none log = replay_revisions (fresh_state "ws_0") (revision_events log)
  replay_world_state (some initial) log = replay_revisions initial (revision_events log)
