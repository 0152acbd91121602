-- ===== src/World/Facts.antt =====
-- Anchored facts: none is anchored twice and none is lost, whatever the operations. And what a
-- hypothesis update does to the hypotheses that are found by id.
use cognitive_execution_engi.Prelude.{
  String, ◌≡◌, refl, ◌==◌, eq_iff, ◌||◌, true, List, [], ◌∷◌, ◌++◌, map, arith, if◌then◌else◌,
  find_first, contains, all_distinct, all_distinct-from_keys, contains-from_keys, contains-append,
}
use mathlib.Core.Option
use cognitive_execution_engi.Outcome.{ok}
use cognitive_execution_engi.World.Schema.{WorldHypothesis}
use cognitive_execution_engi.World.State.{WorldState, find_hypothesis, is_fact_anchored}
use cognitive_execution_engi.World.Update.{
  add_entity, add_relation, add_hypothesis_to_world, update_hypothesis_status, add_anchor_facts,
  update_entity, remove_entity, add_tension, resolve_tension, update_self_model,
  update_dominant_goals, with_status,
}
use cognitive_execution_engi.World.Change.{Change, apply}

module _ {F : Type 0} where
  -- the facts that a change brings
  abbrev pub new_facts : Change F → List String
  new_facts (Change.add_facts facts ref) = facts
  new_facts _ = []

  -- After any operation a fact is anchored exactly if it was before, or the operation adds it; and
  -- where the anchored facts were distinct, they still are.
  pub apply-facts :
      (ws : WorldState F) (c : Change F) (next : WorldState F)
      → apply ws c ≡ ok next
      → ((fact : String)
          → is_fact_anchored next fact ≡ (is_fact_anchored ws fact || contains fact (new_facts c)))
        × (all_distinct ws.anchored_fact_summaries ≡ true
            → all_distinct next.anchored_fact_summaries ≡ true)
  unfolding apply add_entity add_relation add_hypothesis_to_world update_hypothesis_status
      add_anchor_facts update_entity remove_entity add_tension resolve_tension update_self_model
      update_dominant_goals is_fact_anchored contains
  apply-facts ws (Change.add_facts facts ref) next r =
      let known = ws.anchored_fact_summaries in
      (
        λ fact.
            ground
              (arith, contains-from_keys fact (known ++ facts), contains-append fact known facts),
        λ d. ground (arith, all_distinct-from_keys (known ++ facts)),
      )
  apply-facts ws _ next r = (λ fact. ground arith, λ d. ground arith)

  abbrev rewritten : String → String → F → String → WorldHypothesis F → WorldHypothesis F
  rewritten id status c other h =
      if id == other then record h { status = status; confidence = c } else h

  find-with_status :
      (id other status : String) (c : F) (hs : List (WorldHypothesis F))
      → find_first (λ h. h.hypothesis_id == other) (map (with_status id status c) hs)
        ≡ Option.map (rewritten id status c other) (find_first (λ h. h.hypothesis_id == other) hs)
  find-with_status id other status c [] = refl
  find-with_status id other status c (h ∷ hs) = ground (
    arith,
    find-with_status id other status c hs,
    eq_iff h.hypothesis_id other,
    eq_iff h.hypothesis_id id,
    eq_iff id other,
  )

  -- After a status update, finding a hypothesis by id gives the one that was found before, with the
  -- new status and confidence if it is the one updated, and unchanged if not.
  pub find_hypothesis-update :
      (ws next : WorldState F) (id status : String) (c : F) (ref other : String)
      → update_hypothesis_status ws id status c ref ≡ ok next
      → find_hypothesis next other
        ≡ Option.map
            (λ h. if id == other then record h { status = status; confidence = c } else h)
            (find_hypothesis ws other)
  unfolding update_hypothesis_status find_hypothesis
  find_hypothesis-update ws next id status c ref other r =
      ground (arith, find-with_status id other status c ws.hypotheses)
