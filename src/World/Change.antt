-- ===== src/World/Change.antt =====
-- The operations of src/cee_core/world_state.py as one type of changes, and sequences of them.
use cognitive_execution_engi.Prelude.{String, Option, List, [], ◌∷◌}
use cognitive_execution_engi.Outcome.{Outcome, ok, ◌>>=◌}
use cognitive_execution_engi.World.Schema.{WorldEntity, WorldRelation, WorldHypothesis}
use cognitive_execution_engi.World.State.{WorldState}
use cognitive_execution_engi.World.Update

pub data Change (F : Type 0) : Type 0 where
  add_entity : WorldEntity F → String → Change F
  add_relation : WorldRelation F → String → Change F
  add_hypothesis : WorldHypothesis F → String → Change F
  set_hypothesis : String → String → F → String → Change F
  add_facts : List String → String → Change F
  set_entity : String → Option String → Option F → String → Change F
  remove_entity : String → String → Change F
  add_tension : String → String → Change F
  resolve_tension : String → String → Change F
  set_self_model : Option (List String) → Option (List String) → Option F → String → Change F
  set_goals : List String → String → Change F

module _ {F : Type 0} where
  -- the operation of a change
  unfoldable pub apply : WorldState F → Change F → Outcome (WorldState F)
  apply ws (add_entity e ref) = Update.add_entity ws e ref
  apply ws (add_relation r ref) = Update.add_relation ws r ref
  apply ws (add_hypothesis h ref) = Update.add_hypothesis_to_world ws h ref
  apply ws (set_hypothesis id status confidence ref) =
      Update.update_hypothesis_status ws id status confidence ref
  apply ws (add_facts facts ref) = Update.add_anchor_facts ws facts ref
  apply ws (set_entity id summary confidence ref) =
      Update.update_entity ws id summary confidence ref
  apply ws (remove_entity id ref) = Update.remove_entity ws id ref
  apply ws (add_tension t ref) = Update.add_tension ws t ref
  apply ws (resolve_tension t ref) = Update.resolve_tension ws t ref
  apply ws (set_self_model c l r ref) = Update.update_self_model ws c l r ref
  apply ws (set_goals goals ref) = Update.update_dominant_goals ws goals ref

  unfoldable pub apply_all : WorldState F → List (Change F) → Outcome (WorldState F)
  apply_all ws [] = ok ws
  apply_all ws (c ∷ cs) = do next ← apply ws c; apply_all next cs

  -- the provenance reference that a change carries
  unfoldable pub ref_of : Change F → String
  ref_of (add_entity e ref) = ref
  ref_of (add_relation r ref) = ref
  ref_of (add_hypothesis h ref) = ref
  ref_of (set_hypothesis id status confidence ref) = ref
  ref_of (add_facts facts ref) = ref
  ref_of (set_entity id summary confidence ref) = ref
  ref_of (remove_entity id ref) = ref
  ref_of (add_tension t ref) = ref
  ref_of (resolve_tension t ref) = ref
  ref_of (set_self_model c l r ref) = ref
  ref_of (set_goals goals ref) = ref
