-- ===== src/EventLog/Revise.antt =====
-- src/cee_core/event_log.py with src/cee_core/revision.py: what the replay makes of a revision that
-- `revise_from_commitment` has written, from the state that was revised.
use cognitive_execution_engi.Prelude.{
  ℕ, ◌+◌, String, ◌≡◌, refl, ap, sym, ◌∙◌, ◌==◌, eq_iff, ◌&&◌, ◌||◌, not, Bool, true, false, List,
  [], ◌∷◌, ◌++◌, map, keep, arith, is_some, contains, contains-from_keys, contains-append, truthy,
  append_assoc, append-nil, ◌<>◌, show, Bool-cases, inl, inr,
}
use cognitive_execution_engi.Value.{Platform}
use cognitive_execution_engi.Outcome.{Outcome, ok, raise, Returns, Returns-bind, type_error}
use cognitive_execution_engi.World.Schema.{RevisionDelta}
use cognitive_execution_engi.World.State.{WorldState, find_hypothesis, is_fact_anchored}
use cognitive_execution_engi.World.Update.{add_anchor_facts}
use cognitive_execution_engi.World.Identity.{next_state_id-ws}
use cognitive_execution_engi.Commitment.{CommitmentEvent}
use cognitive_execution_engi.Revision.{
  Request, revision_event, anchor_deltas, strengthen_delta, discard_delta,
}
use cognitive_execution_engi.EventLog.Replay.{
  apply_revision, apply_deltas, apply_kind, collect, is_anchor, anchor_new, seal,
}
use cognitive_execution_engi.EventLog.Replay.Targets.{
  apply_hypothesis_update, apply_hypothesis_remove, call_without_confidence,
}

module _ {F : Type 0} where
  -- a hypothesis of the state has one of the ids
  unfoldable pub knows_any : WorldState F → List String → Bool
  knows_any ws [] = false
  knows_any ws (id ∷ ids) = is_some (find_hypothesis ws id) || knows_any ws ids

  -- a fact that the replay will anchor
  abbrev fresh : WorldState F → String → Bool
  fresh ws fact = truthy fact && not (contains fact ws.anchored_fact_summaries)

  contains-keep-fresh :
      (ws : WorldState F) (fact : String) (facts : List String)
      → contains fact (keep (fresh ws) facts) ≡ (contains fact facts && fresh ws fact)
  unfolding contains
  contains-keep-fresh ws fact [] = refl
  contains-keep-fresh ws fact (f ∷ facts) = elim (Bool-cases (f == fact)) [
    | inl same ↦
        rw (sym ((eq_iff f fact).0 same))
          (ground (arith, contains-keep-fresh ws f facts, eq_iff f f))
    | inr other ↦ ground (arith, contains-keep-fresh ws fact facts)
  ]

module _ {F : Type 0} ⦃p : Platform F⦄ (ref event : String) (ws : WorldState F) where
  after_anchors :
      (n : ℕ) (facts seen : List String) (rest : List (RevisionDelta F))
      → apply_deltas ref ws seen (anchor_deltas event n facts ++ rest)
        ≡ apply_deltas ref ws (seen ++ keep (fresh ws) facts) rest
  unfolding apply_deltas anchor_deltas collect is_anchor apply_kind
  after_anchors n [] seen rest = ap (λ s. apply_deltas ref ws s rest) (sym (append-nil seen))
  after_anchors n (fact ∷ facts) seen rest = elim (Bool-cases (fresh ws fact)) [
    | inl new ↦ rw (new) (
        after_anchors (n + 1) facts (seen ++ fact ∷ []) rest
        ∙ ap (λ s. apply_deltas ref ws s rest)
            (append_assoc seen (fact ∷ []) (keep (fresh ws) facts)))
    | inr old ↦ rw (old) (after_anchors (n + 1) facts seen rest)
  ]

  after_strengthened :
      (ids seen : List String) (rest : List (RevisionDelta F))
      → apply_deltas ref ws seen (map (strengthen_delta event) ids ++ rest)
        ≡ apply_deltas ref ws seen rest
  unfolding apply_deltas collect is_anchor apply_kind apply_hypothesis_update
  after_strengthened [] seen rest = refl
  after_strengthened (id ∷ ids) seen rest = after_strengthened ids seen rest

  -- what is left of the replay at the discarded ids
  abbrev discards : Bool → List String → Outcome (WorldState F × List String)
  discards true seen = raise (
      type_error
        "update_hypothesis_status() missing 1 required positional argument: 'new_confidence'")
  discards false seen = ok (ws, seen)

  after_discarded :
      (ids seen : List String)
      → apply_deltas ref ws seen (map (discard_delta event) ids) ≡ discards (knows_any ws ids) seen
  unfolding apply_deltas collect is_anchor apply_kind apply_hypothesis_remove
      call_without_confidence knows_any
  after_discarded [] seen = refl
  after_discarded (id ∷ ids) seen = elim (Bool-cases (is_some (find_hypothesis ws id))) [
    | inl known ↦ rw known refl
    | inr unknown ↦ rw unknown (after_discarded ids seen)
  ]

  after_all :
      (facts strong discarded : List String)
      → apply_deltas ref ws [] (
          anchor_deltas event 0 facts
          ++ (map (strengthen_delta event) strong ++ map (discard_delta event) discarded))
        ≡ discards (knows_any ws discarded) (keep (fresh ws) facts)
  after_all facts strong discarded =
      after_anchors 0 facts [] _
      ∙ after_strengthened strong (keep (fresh ws) facts) _
      ∙ after_discarded discarded (keep (fresh ws) facts)

module _ {F : Type 0} ⦃p : Platform F⦄ where
  -- A revision that discards a hypothesis known to the state cannot be replayed from that state: the
  -- replay raises a type error, whatever else the revision holds.
  pub apply_revision-discarded :
      (ws : WorldState F) (event : CommitmentEvent F) (q : Request)
      → knows_any ws q.discarded_hypothesis_ids ≡ true
      → apply_revision ws (revision_event ws event q)
        ≡ raise (
            type_error
              "update_hypothesis_status() missing 1 required positional argument: 'new_confidence'")
  unfolding apply_revision revision_event
  apply_revision-discarded ws event q known =
      rw
        (
          after_all q.revision_id event.event_id ws q.new_anchor_fact_summaries
              q.strengthened_hypothesis_ids q.discarded_hypothesis_ids,
          known,
        )
        refl

  -- the part of the state that a replay keeps, and the facts it adds
  record Replayed (ws : WorldState F) (facts : List String) (next : WorldState F) : Type 0 where
    entities : next.entities ≡ ws.entities
    relations : next.relations ≡ ws.relations
    hypotheses : next.hypotheses ≡ ws.hypotheses
    anchored :
        (fact : String)
        → is_fact_anchored next fact ≡ (is_fact_anchored ws fact || contains fact facts)

  anchor_new-Replayed :
      (ws : WorldState F) (facts : List String) (n : ℕ)
      → ws.state_id ≡ "ws_" <> show n
      → Returns (Replayed ws facts) (anchor_new ws facts)
  unfolding anchor_new add_anchor_facts is_fact_anchored contains
  anchor_new-Replayed ws [] n h = record {
    entities = refl;
    relations = refl;
    hypotheses = refl;
    anchored = λ fact. ground arith;
  }
  anchor_new-Replayed ws (f ∷ facts) n h =
      rw (h, next_state_id-ws n)
        (record {
          entities = refl;
          relations = refl;
          hypotheses = refl;
          anchored = λ fact.
              contains-from_keys fact _
              ∙ contains-append fact ws.anchored_fact_summaries (f ∷ facts);
        })

  -- From a state with id `ws_n`, a revision that discards no known hypothesis replays. The new state
  -- has the requested id and the old entities, relations and hypotheses, so a strengthened hypothesis
  -- keeps its old status; its facts are the old ones and the new ones that are not empty.
  pub apply_revision-effect :
      (ws : WorldState F) (event : CommitmentEvent F) (q : Request) (n : ℕ)
      → ws.state_id ≡ "ws_" <> show n
      → knows_any ws q.discarded_hypothesis_ids ≡ false
      → Returns
          (λ next.
            (next.state_id ≡ q.resulting_state_id)
            × (next.entities ≡ ws.entities)
            × (next.relations ≡ ws.relations)
            × (next.hypotheses ≡ ws.hypotheses)
            × ((fact : String)
                → is_fact_anchored next fact ≡ (
                    is_fact_anchored ws fact
                    || (truthy fact && contains fact q.new_anchor_fact_summaries))))
          (apply_revision ws (revision_event ws event q))
  unfolding apply_revision revision_event seal is_fact_anchored
  apply_revision-effect ws event q n h unknown =
      let new = keep (fresh ws) q.new_anchor_fact_summaries in
      rw
        (
          after_all q.revision_id event.event_id ws q.new_anchor_fact_summaries
              q.strengthened_hypothesis_ids q.discarded_hypothesis_ids,
          unknown,
        )
        (Returns-bind _ _ (anchor_new ws new) _ (anchor_new-Replayed ws new n h) (λ anchored r. (
          refl,
          r.entities,
          r.relations,
          r.hypotheses,
          λ fact.
              r.anchored fact
              ∙ ground (arith, contains-keep-fresh ws fact q.new_anchor_fact_summaries),
        )))
