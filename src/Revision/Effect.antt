-- ===== src/Revision/Effect.antt =====
-- What `revise_from_commitment` does to the state.
use mathlib.Core.Option
use mathlib.Core.Path.{subst}
use cognitive_execution_engi.Prelude.{
  ℕ, suc, ◌+◌, String, ◌≡◌, refl, ap, ◌∙◌, ◌==◌, ◌||◌, Bool, false, List, [], ◌∷◌, Option, none,
  some, ◌<>◌, show, length, arith, contains, if◌then◌else◌,
}
use cognitive_execution_engi.Value.{Platform}
use cognitive_execution_engi.Outcome.{
  Outcome, ok, ◌>>=◌, Returns, Returns-bind, Returns-map, Returns-of_not_raise,
}
use cognitive_execution_engi.World.State.{WorldState, find_hypothesis, is_fact_anchored}
use cognitive_execution_engi.World.Update.{
  next_state_id, update_hypothesis_status, add_anchor_facts,
}
use cognitive_execution_engi.World.Identity.{next_state_id-ws}
use cognitive_execution_engi.World.Facts.{find_hypothesis-update, apply-facts}
use cognitive_execution_engi.World.Change
use cognitive_execution_engi.World.Change.{apply}
use cognitive_execution_engi.Commitment.{CommitmentEvent}
use cognitive_execution_engi.Revision.{
  Request, discard_all, strengthen_all, anchor_all, strengthened, revise_from_commitment,
}

-- a new status, if the test holds
abbrev pub relabel : Bool → String → Option String → Option String
relabel b s none = none
relabel b s (some t) = some (if b then s else t)

relabel-relabel :
    (a b : Bool) (s : String) (t : Option String)
    → relabel b s (relabel (a || false) s t) ≡ relabel (a || b) s t
relabel-relabel a b s none = refl
relabel-relabel a b s (some t) = ground arith

relabel-false : (s : String) (t : Option String) → t ≡ relabel false s t
relabel-false s none = refl
relabel-false s (some t) = refl

module _ {F : Type 0} where
  -- the status of the hypothesis that is found under an id
  unfoldable pub status_of : WorldState F → String → Option String
  status_of ws id = Option.map (λ h. h.status) (find_hypothesis ws id)

  -- A state that differs in hypotheses only: statuses are `s` at the ids, and as before elsewhere.
  record Relabels (ws : WorldState F) (ids : List String) (s : String) (n : ℕ) (next : WorldState F)
      : Type 0 where
    id : next.state_id ≡ "ws_" <> show n
    entities : next.entities ≡ ws.entities
    relations : next.relations ≡ ws.relations
    facts : next.anchored_fact_summaries ≡ ws.anchored_fact_summaries
    statuses :
        (other : String)
        → status_of next other ≡ relabel (contains other ids) s (status_of ws other)

  status_of-update :
      (ws next : WorldState F) (id status : String) (c : F) (ref other : String)
      → update_hypothesis_status ws id status c ref ≡ ok next
      → status_of next other ≡ relabel (id == other) status (status_of ws other)
  unfolding status_of
  status_of-update ws next id status c ref other r =
      ground (arith, find_hypothesis-update ws next id status c ref other r)

  update-Relabels :
      (ws : WorldState F) (id status : String) (c : F) (ref : String) (n : ℕ)
      → ws.state_id ≡ "ws_" <> show n
      → Returns (Relabels ws (id ∷ []) status (n + 1)) (update_hypothesis_status ws id status c ref)
  unfolding update_hypothesis_status contains
  update-Relabels ws id status c ref n h =
      let new = ap next_state_id h ∙ next_state_id-ws n in
      Returns-of_not_raise _ (update_hypothesis_status ws id status c ref)
        (λ e r. ground (arith, new))
        (λ next r. record {
          id = ground (arith, new);
          entities = ground (arith, new);
          relations = ground (arith, new);
          facts = ground (arith, new);
          statuses = λ other. ground (arith, status_of-update ws next id status c ref other r);
        })

  Relabels-trans :
      {ws mid next : WorldState F} {s : String} {n k : ℕ} (id : String) (ids : List String)
      → Relabels ws (id ∷ []) s n mid
      → Relabels mid ids s k next
      → Relabels ws (id ∷ ids) s k next
  unfolding contains
  Relabels-trans {ws} {mid} {next} {s = s} id ids p q = record {
    id = q.id;
    entities = q.entities ∙ p.entities;
    relations = q.relations ∙ p.relations;
    facts = q.facts ∙ p.facts;
    statuses = λ other.
        q.statuses other
        ∙ ap (relabel (contains other ids) s) (p.statuses other)
        ∙ relabel-relabel (id == other) (contains other ids) s (status_of ws other);
  }

  Relabels-refl :
      (ws : WorldState F) (s : String) (n : ℕ)
      → ws.state_id ≡ "ws_" <> show n
      → Relabels ws [] s (n + 0) ws
  unfolding contains
  Relabels-refl ws s n h = record {
    id = h ∙ ap (λ k. "ws_" <> show k) (omega arith);
    entities = refl;
    relations = refl;
    facts = refl;
    statuses = λ other. relabel-false s (status_of ws other);
  }

  Relabels-more :
      {ws next : WorldState F} {ids : List String} {s : String} (n k : ℕ)
      → Relabels ws ids s (n + 1 + k) next
      → Relabels ws ids s (n + suc k) next
  Relabels-more {ws} {next} {ids} {s} n k h =
      subst (λ (t : ℕ). Relabels ws ids s t next) (shift n k) h
    where
      shift : (a b : ℕ) → a + 1 + b ≡ a + suc b
      shift a b = omega arith

  Relabels-loop :
      (ws : WorldState F) (id : String) (ids : List String) (s : String) (n : ℕ)
      (m : Outcome (WorldState F)) (rest : WorldState F → Outcome (WorldState F))
      → Returns (Relabels ws (id ∷ []) s (n + 1)) m
      → ((mid : WorldState F)
          → mid.state_id ≡ "ws_" <> show (n + 1)
          → Returns (Relabels mid ids s (n + 1 + length ids)) (rest mid))
      → Returns (Relabels ws (id ∷ ids) s (n + suc (length ids))) (m >>= rest)
  Relabels-loop ws id ids s n m rest first others = Returns-bind _ _ m rest first (λ mid p.
      Returns-map _ _ (rest mid) (others mid p.id)
        (λ next q. Relabels-more n (length ids) (Relabels-trans id ids p q)))

module _ {F : Type 0} ⦃p : Platform F⦄ where
  discard_all-Relabels :
      (ref : String) (ws : WorldState F) (ids : List String) (n : ℕ)
      → ws.state_id ≡ "ws_" <> show n
      → Returns (Relabels ws ids "rejected" (n + length ids)) (discard_all ref ws ids)
  unfolding discard_all
  discard_all-Relabels ref ws [] n h = Relabels-refl ws "rejected" n h
  discard_all-Relabels ref ws (id ∷ ids) n h =
      Relabels-loop ws id ids "rejected" n _ (λ mid. discard_all ref mid ids)
        (update-Relabels ws id "rejected" (p.decimal 0 0) ref n h)
        (λ mid e. discard_all-Relabels ref mid ids (n + 1) e)

  strengthen_all-Relabels :
      (ref : String) (ws : WorldState F) (ids : List String) (n : ℕ)
      → ws.state_id ≡ "ws_" <> show n
      → Returns (Relabels ws ids "active" (n + length ids)) (strengthen_all ref ws ids)
  unfolding strengthen_all
  strengthen_all-Relabels ref ws [] n h = Relabels-refl ws "active" n h
  strengthen_all-Relabels ref ws (id ∷ ids) n h =
      Relabels-loop ws id ids "active" n _ (λ mid. strengthen_all ref mid ids)
        (update-Relabels ws id "active" (strengthened (find_hypothesis ws id)) ref n h)
        (λ mid e. strengthen_all-Relabels ref mid ids (n + 1) e)

  -- A state that differs in anchored facts only.
  record Anchors (ws : WorldState F) (new : List String) (next : WorldState F) : Type 0 where
    entities : next.entities ≡ ws.entities
    relations : next.relations ≡ ws.relations
    statuses : (id : String) → status_of next id ≡ status_of ws id
    facts :
        (fact : String)
        → is_fact_anchored next fact ≡ (is_fact_anchored ws fact || contains fact new)

  add_anchor_facts-Anchors :
      (ws : WorldState F) (facts : List String) (ref : String) (n : ℕ)
      → ws.state_id ≡ "ws_" <> show n
      → Returns (Anchors ws facts) (add_anchor_facts ws facts ref)
  unfolding add_anchor_facts status_of find_hypothesis
  add_anchor_facts-Anchors ws facts ref n h =
      let new = ap next_state_id h ∙ next_state_id-ws n in
      Returns-of_not_raise _ (add_anchor_facts ws facts ref) (λ e r. ground (arith, new))
        (λ next r. record {
          entities = ground (arith, new);
          relations = ground (arith, new);
          statuses = λ id. ground (arith, new);
          facts = (apply-facts ws (Change.add_facts facts ref) next (unfold apply in r)).0;
        })

  anchor_all-Anchors :
      (ref : String) (ws : WorldState F) (facts : List String) (n : ℕ)
      → ws.state_id ≡ "ws_" <> show n
      → Returns (Anchors ws facts) (anchor_all ref ws facts)
  unfolding anchor_all contains
  anchor_all-Anchors ref ws [] n h = record {
    entities = refl;
    relations = refl;
    statuses = λ id. refl;
    facts = λ fact. ground arith;
  }
  anchor_all-Anchors ref ws (fact ∷ facts) n h = add_anchor_facts-Anchors ws (fact ∷ facts) ref n h

  -- A revision of a state with id `ws_n` succeeds. The new state has the requested id, the same
  -- entities and relations, and the requested facts besides the old ones; a hypothesis found by id
  -- is active if it is strengthened, else rejected if it is discarded, else has its old status.
  pub revise_from_commitment-effect :
      (ws : WorldState F) (event : CommitmentEvent F) (q : Request) (n : ℕ)
      → ws.state_id ≡ "ws_" <> show n
      → Returns
          (λ (made, next).
            (next.state_id ≡ q.resulting_state_id)
            × (next.entities ≡ ws.entities)
            × (next.relations ≡ ws.relations)
            × ((fact : String)
                → is_fact_anchored next fact
                  ≡ (is_fact_anchored ws fact || contains fact q.new_anchor_fact_summaries))
            × ((id : String)
                → status_of next id
                  ≡ relabel (contains id q.strengthened_hypothesis_ids) "active" (
                      relabel
                        (contains id q.discarded_hypothesis_ids)
                        "rejected"
                        (status_of ws id))))
          (revise_from_commitment ws event q)
  unfolding revise_from_commitment is_fact_anchored status_of find_hypothesis
  revise_from_commitment-effect ws event q n h =
      let ref = "revision:" <> q.revision_id in
      Returns-bind _ _ (discard_all ref ws q.discarded_hypothesis_ids) _
        (discard_all-Relabels ref ws q.discarded_hypothesis_ids n h)
        (λ discarded d.
          Returns-bind _ _ (strengthen_all ref discarded q.strengthened_hypothesis_ids) _
            (strengthen_all-Relabels ref discarded q.strengthened_hypothesis_ids _ d.id)
            (λ active a.
              Returns-bind _ _ (anchor_all ref active q.new_anchor_fact_summaries) _
                (anchor_all-Anchors ref active q.new_anchor_fact_summaries _ a.id)
                (λ anchored f. (
                  refl,
                  f.entities ∙ a.entities ∙ d.entities,
                  f.relations ∙ a.relations ∙ d.relations,
                  (λ fact.
                      f.facts fact
                      ∙ ap
                          (λ facts.
                            contains fact facts || contains fact q.new_anchor_fact_summaries)
                          (a.facts ∙ d.facts)),
                  λ id.
                      f.statuses id
                      ∙ a.statuses id
                      ∙ ap (relabel (contains id q.strengthened_hypothesis_ids) "active")
                          (d.statuses id),
                ))))
