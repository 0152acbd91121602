-- ===== src/World/Identity.antt =====
-- State ids: every operation moves from `ws_n` to `ws_(n + 1)`, and records where it came from.
use cognitive_execution_engi.Prelude.{
  ℕ, ◌+◌, String, ◌≡◌, ◌↔◌, refl, ap, sym, ◌∙◌, some, List, [], ◌∷◌, ◌++◌, length, ◌<>◌, show,
  arith, read_int-show, last_segment-ws, strip_prefix-append, show_int-pos, append_assoc,
  append-nil,
}
use cognitive_execution_engi.Outcome.{ok, raise, Exception, Returns, Returns-bind, Returns-map}
use cognitive_execution_engi.World.State.{WorldState}
use cognitive_execution_engi.World.Update.{
  next_state_id, refs_of, add_entity, add_relation, add_hypothesis_to_world,
  update_hypothesis_status, add_anchor_facts, update_entity, remove_entity, add_tension,
  resolve_tension, update_self_model, update_dominant_goals,
}
use cognitive_execution_engi.World.Change.{Change, apply, apply_all, ref_of}

-- The id after `ws_n` is `ws_(n + 1)`.
pub next_state_id-ws : (n : ℕ) → next_state_id ("ws_" <> show n) ≡ ok ("ws_" <> show (n + 1))
unfolding next_state_id
next_state_id-ws n =
    rw
      (strip_prefix-append "ws_" (show n), last_segment-ws n, read_int-show n, show_int-pos (n + 1))

module _ {F : Type 0} where
  -- the references of a sequence of changes, in order
  abbrev pub all_refs : List (Change F) → List String
  all_refs [] = []
  all_refs (c ∷ cs) = refs_of (ref_of c) ++ all_refs cs

  apply-next :
      (ws : WorldState F) (c : Change F) (id : String)
      → next_state_id ws.state_id ≡ ok id
      → Returns
          (λ next.
            (next.state_id ≡ id)
            × (next.parent_state_id ≡ some ws.state_id)
            × (next.provenance_refs ≡ ws.provenance_refs ++ refs_of (ref_of c)))
          (apply ws c)
  unfolding apply ref_of add_entity add_relation add_hypothesis_to_world update_hypothesis_status
      add_anchor_facts update_entity remove_entity add_tension resolve_tension update_self_model
      update_dominant_goals
  apply-next ws (Change.add_entity e ref) id h = rw h (refl, refl, refl)
  apply-next ws _ id h = rw h (refl, refl, refl)

  -- From a state with id `ws_n`, any sequence of operations succeeds: the last state has the id
  -- `ws_(n + k)` for `k` operations, and its provenance is the old one, then the references of the
  -- operations in order, where an operation without a reference adds none.
  pub apply_all-ws :
      (n : ℕ) (ws : WorldState F) (cs : List (Change F))
      → ws.state_id ≡ "ws_" <> show n
      → Returns
          (λ last.
            (last.state_id ≡ "ws_" <> show (n + length cs))
            × (last.provenance_refs ≡ ws.provenance_refs ++ all_refs cs))
          (apply_all ws cs)
  unfolding apply_all
  apply_all-ws n ws [] h = (h ∙ ap (λ k. "ws_" <> show k) (omega arith), sym (append-nil _))
  apply_all-ws n ws (c ∷ cs) h =
      Returns-bind _ _ (apply ws c) (λ next. apply_all next cs)
        (apply-next ws c ("ws_" <> show (n + 1)) (ap next_state_id h ∙ next_state_id-ws n))
        (λ next (id, parent, refs).
          Returns-map _ _ (apply_all next cs) (apply_all-ws (n + 1) next cs id)
            (λ last (last_id, last_refs). (
              last_id ∙ ap (λ k. "ws_" <> show k) (omega arith),
              last_refs
                  ∙ ap (λ r. r ++ all_refs cs) refs
                  ∙ append_assoc ws.provenance_refs (refs_of (ref_of c)) (all_refs cs),
            )))

  -- An operation raises exactly when the next state id cannot be derived, and raises the same.
  apply-raise :
      (ws : WorldState F) (c : Change F) (e : Exception)
      → (apply ws c ≡ raise e) ↔ (next_state_id ws.state_id ≡ raise e)
  unfolding apply ref_of add_entity add_relation add_hypothesis_to_world update_hypothesis_status
      add_anchor_facts update_entity remove_entity add_tension resolve_tension update_self_model
      update_dominant_goals
  apply-raise ws (Change.add_entity x ref) e = (ground arith, ground arith)
  apply-raise ws _ e = (ground arith, ground arith)
