-- ===== src/World/Update.antt =====
-- src/cee_core/world_state.py: the operations. Each derives the next state id, which raises where
-- the number behind the last underscore cannot be read.
use cognitive_execution_engi.Prelude.{
  String, ◌==◌, ◌&&◌, not, Option, none, some, List, [], ◌∷◌, ◌++◌, map, keep, if◌then◌else◌,
  or_else, truthy, has_prefix, ◌<>◌, ℤ, succ, show_int, read_int, last_segment, from_keys,
}
use cognitive_execution_engi.Outcome.{Outcome, ok, raise, ◌>>=◌, value_error}
use cognitive_execution_engi.World.Schema.{WorldEntity, WorldRelation, WorldHypothesis}
use cognitive_execution_engi.World.State.{WorldState}

numbered : Option ℤ → String → Outcome String
numbered none text = raise (value_error ("invalid literal for int() with base 10: " <> text))
numbered (some z) text = ok ("ws_" <> show_int (succ z))

-- `_next_state_id`, of the current id
unfoldable pub next_state_id : String → Outcome String
unfolding numbered
next_state_id id =
    if has_prefix "ws_" id
    then numbered (read_int (last_segment id)) (last_segment id)
    else ok "ws_1"

-- `(provenance_ref,) if provenance_ref else ()`
abbrev pub refs_of : String → List String
refs_of ref = if truthy ref then ref ∷ [] else []

module _ {F : Type 0} where
  -- the part of `replace` that all operations share
  unfoldable pub advance : WorldState F → String → Outcome (WorldState F)
  advance ws ref = do
    id ← next_state_id ws.state_id
    ok (record ws {
      state_id = id;
      parent_state_id = some ws.state_id;
      provenance_refs = ws.provenance_refs ++ refs_of ref;
    })

  unfoldable pub add_entity : WorldState F → WorldEntity F → String → Outcome (WorldState F)
  unfolding advance
  add_entity ws e ref = do
    next ← advance ws ref
    ok (record next { entities = ws.entities ++ e ∷ [] })

  unfoldable pub add_relation : WorldState F → WorldRelation F → String → Outcome (WorldState F)
  unfolding advance
  add_relation ws r ref = do
    next ← advance ws ref
    ok (record next { relations = ws.relations ++ r ∷ [] })

  unfoldable pub add_hypothesis_to_world :
      WorldState F → WorldHypothesis F → String → Outcome (WorldState F)
  unfolding advance
  add_hypothesis_to_world ws h ref = do
    next ← advance ws ref
    ok (record next { hypotheses = ws.hypotheses ++ h ∷ [] })

  abbrev pub with_status : String → String → F → WorldHypothesis F → WorldHypothesis F
  with_status id status confidence h =
      if h.hypothesis_id == id then record h { status = status; confidence = confidence } else h

  unfoldable pub update_hypothesis_status :
      WorldState F → String → String → F → String → Outcome (WorldState F)
  unfolding advance
  update_hypothesis_status ws id status confidence ref = do
    next ← advance ws ref
    ok (record next { hypotheses = map (with_status id status confidence) ws.hypotheses })

  unfoldable pub add_anchor_facts : WorldState F → List String → String → Outcome (WorldState F)
  unfolding advance
  add_anchor_facts ws facts ref = do
    next ← advance ws ref
    ok (record next { anchored_fact_summaries = from_keys (ws.anchored_fact_summaries ++ facts) })

  abbrev pub with_summary : String → Option String → Option F → WorldEntity F → WorldEntity F
  with_summary id summary confidence e =
      if e.entity_id == id
      then record e {
        summary = or_else summary e.summary;
        confidence = or_else confidence e.confidence;
      }
      else e

  unfoldable pub update_entity :
      WorldState F → String → Option String → Option F → String → Outcome (WorldState F)
  unfolding advance
  update_entity ws id summary confidence ref = do
    next ← advance ws ref
    ok (record next { entities = map (with_summary id summary confidence) ws.entities })

  unfoldable pub remove_entity : WorldState F → String → String → Outcome (WorldState F)
  unfolding advance
  remove_entity ws id ref = do
    next ← advance ws ref
    ok (record next {
      entities = keep (λ e. not (e.entity_id == id)) ws.entities;
      relations = keep (λ r. not (r.subject_id == id) && not (r.object_id == id)) ws.relations;
    })

  unfoldable pub add_tension : WorldState F → String → String → Outcome (WorldState F)
  unfolding advance
  add_tension ws tension ref = do
    next ← advance ws ref
    ok (record next { active_tensions = ws.active_tensions ++ tension ∷ [] })

  unfoldable pub resolve_tension : WorldState F → String → String → Outcome (WorldState F)
  unfolding advance
  resolve_tension ws tension ref = do
    next ← advance ws ref
    ok (record next { active_tensions = keep (λ t. not (t == tension)) ws.active_tensions })

  unfoldable pub update_self_model :
      WorldState F
      → Option (List String)
      → Option (List String)
      → Option F
      → String
      → Outcome (WorldState F)
  unfolding advance
  update_self_model ws capability limit reliability ref = do
    next ← advance ws ref
    ok (record next {
      self_capability_summary = or_else capability ws.self_capability_summary;
      self_limit_summary = or_else limit ws.self_limit_summary;
      self_reliability_estimate = or_else reliability ws.self_reliability_estimate;
    })

  unfoldable pub update_dominant_goals :
      WorldState F → List String → String → Outcome (WorldState F)
  unfolding advance
  update_dominant_goals ws goals ref = do
    next ← advance ws ref
    ok (record next { dominant_goals = goals })
