-- ===== src/World/Shape.antt =====
-- Relations and entities: no operation but `add_relation` can leave a relation whose ends are not
-- entities of the state.
use cognitive_execution_engi.Prelude.{
  String, ◌≡◌, refl, ◌∙◌, ◌==◌, eq_iff, ◌&&◌, ◌||◌, not, Bool, true, false, List, [], ◌∷◌, ◌++◌,
  map, keep, arith, Option,
}
use cognitive_execution_engi.Outcome.{ok}
use cognitive_execution_engi.World.Schema.{WorldEntity, WorldRelation}
use cognitive_execution_engi.World.State.{WorldState}
use cognitive_execution_engi.World.Update.{
  add_entity, add_relation, add_hypothesis_to_world, update_hypothesis_status, add_anchor_facts,
  update_entity, remove_entity, add_tension, resolve_tension, update_self_model,
  update_dominant_goals, with_summary,
}
use cognitive_execution_engi.World.Change.{Change, apply}

module _ {F : Type 0} where
  -- an entity of the list has the id
  unfoldable pub known : String → List (WorldEntity F) → Bool
  known id [] = false
  known id (e ∷ es) = (e.entity_id == id) || known id es

  -- both ends of every relation are known
  unfoldable pub all_linked : List (WorldEntity F) → List (WorldRelation F) → Bool
  all_linked es [] = true
  all_linked es (r ∷ rs) = known r.subject_id es && known r.object_id es && all_linked es rs

  -- a change that adds no relation, or one between known entities
  abbrev pub links : WorldState F → Change F → Bool
  links ws (Change.add_relation r ref) =
      known r.subject_id ws.entities && known r.object_id ws.entities
  links ws _ = true

  known-append :
      (id : String) (es fs : List (WorldEntity F))
      → known id (es ++ fs) ≡ (known id es || known id fs)
  unfolding known
  known-append id [] fs = refl
  known-append id (e ∷ es) fs = ground (arith, known-append id es fs)

  known-with_summary :
      (id target : String) (s : Option String) (c : Option F) (es : List (WorldEntity F))
      → known id (map (with_summary target s c) es) ≡ known id es
  unfolding known
  known-with_summary id target s c [] = refl
  known-with_summary id target s c (e ∷ es) = ground (arith, known-with_summary id target s c es)

  -- Another entity stays known when one is removed.
  known-keep :
      (id target : String) (es : List (WorldEntity F))
      → (id == target) ≡ false
      → known id (keep (λ e. not (e.entity_id == target)) es) ≡ known id es
  unfolding known
  known-keep id target [] d = refl
  known-keep id target (e ∷ es) d = ground (
    arith,
    known-keep id target es,
    eq_iff e.entity_id target,
    eq_iff e.entity_id id,
    eq_iff id target,
  )

  all_linked-grow :
      (es fs : List (WorldEntity F)) (rs : List (WorldRelation F))
      → ((id : String) → known id es ≡ true → known id fs ≡ true)
      → all_linked es rs ≡ true
      → all_linked fs rs ≡ true
  unfolding all_linked
  all_linked-grow es fs [] grow h = refl
  all_linked-grow es fs (r ∷ rs) grow h =
      ground (arith, grow r.subject_id, grow r.object_id, all_linked-grow es fs rs grow)

  all_linked-append :
      (es : List (WorldEntity F)) (rs qs : List (WorldRelation F))
      → all_linked es (rs ++ qs) ≡ (all_linked es rs && all_linked es qs)
  unfolding all_linked
  all_linked-append es [] qs = refl
  all_linked-append es (r ∷ rs) qs = ground (arith, all_linked-append es rs qs)

  all_linked-remove :
      (id : String) (es : List (WorldEntity F)) (rs : List (WorldRelation F))
      → all_linked es rs ≡ true
      → all_linked
          (keep (λ e. not (e.entity_id == id)) es)
          (keep (λ r. not (r.subject_id == id) && not (r.object_id == id)) rs)
        ≡ true
  unfolding all_linked
  all_linked-remove id es [] h = refl
  all_linked-remove id es (r ∷ rs) h = ground (
    arith,
    all_linked-remove id es rs,
    known-keep r.subject_id id es,
    known-keep r.object_id id es,
  )

  -- Every operation keeps the relations of a state linked to its entities, provided that a relation
  -- is added only between known entities: removing an entity removes its relations with it.
  pub apply-all_linked :
      (ws : WorldState F) (c : Change F)
      → all_linked ws.entities ws.relations ≡ true
      → links ws c ≡ true
      → (next : WorldState F) → apply ws c ≡ ok next
      → all_linked next.entities next.relations ≡ true
  unfolding apply add_entity add_relation add_hypothesis_to_world update_hypothesis_status
      add_anchor_facts update_entity remove_entity add_tension resolve_tension update_self_model
      update_dominant_goals all_linked
  apply-all_linked ws (Change.add_entity e ref) h l next r = ground (
    arith,
    all_linked-grow ws.entities (ws.entities ++ e ∷ []) ws.relations
        (λ id k. ground (arith, known-append id ws.entities (e ∷ []))),
  )
  apply-all_linked ws (Change.add_relation q ref) h l next r =
      ground (arith, all_linked-append ws.entities ws.relations (q ∷ []))
  apply-all_linked ws (Change.set_entity id s c ref) h l next r = ground (
    arith,
    all_linked-grow ws.entities (map (with_summary id s c) ws.entities) ws.relations
        (λ other k. known-with_summary other id s c ws.entities ∙ k),
  )
  apply-all_linked ws (Change.remove_entity id ref) h l next r =
      ground (arith, all_linked-remove id ws.entities ws.relations h)
  apply-all_linked ws _ h l next r = ground arith
