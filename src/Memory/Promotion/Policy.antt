-- ===== src/Memory/Promotion/Policy.antt =====
-- src/cee_core/memory_promotion.py: which requests the default policy allows.
use cognitive_execution_engi.Prelude.{
  String, ◌≡◌, refl, ◌∙◌, ◌&&◌, not, Bool, true, false, List, [], ◌∷◌, ◌++◌, Option, none, some,
  all_spaces, every, ltb, contains, arith,
}
use cognitive_execution_engi.Value.{Platform}
use cognitive_execution_engi.World.Schema.{RevisionDelta}
use cognitive_execution_engi.Revision.{ModelRevisionEvent}
use cognitive_execution_engi.Observation.{ObservationCandidate}
use cognitive_execution_engi.Memory.Promotion.{
  MemoryPromotionRequest, DefaultMemoryPromotionPolicy, outcomes, sources, diff_size, violation,
  unjustified, revision_violations, observation_violations, all_violations, decide, evaluate,
}

abbrev is_empty : List String → Bool
is_empty [] = true
is_empty (x ∷ xs) = false

is_empty-append : (xs ys : List String) → is_empty (xs ++ ys) ≡ (is_empty xs && is_empty ys)
is_empty-append [] ys = refl
is_empty-append (x ∷ xs) ys = refl

decide-allowed : (rules : List String) → (decide rules).allowed ≡ is_empty rules
unfolding decide
decide-allowed [] = refl
decide-allowed (rule ∷ rules) = refl

is_empty-violation : (b : Bool) (rule : String) → is_empty (violation b rule) ≡ not b
is_empty-violation true rule = refl
is_empty-violation false rule = refl

-- every delta of the revision has a justification
abbrev pub justified : {F : Type 0} → Option (ModelRevisionEvent F) → Bool
justified none = true
justified (some rev) = every (λ delta. not (all_spaces delta.justification)) rev.deltas

module _ {F : Type 0} where
  unjustified-justified :
      (deltas : List (RevisionDelta F))
      → is_empty (unjustified deltas) ≡ every (λ delta. not (all_spaces delta.justification)) deltas
  unfolding unjustified
  unjustified-justified [] = refl
  unjustified-justified (delta ∷ deltas) =
      is_empty-append (violation (all_spaces delta.justification) _) (unjustified deltas)
      ∙ rw (is_empty-violation, unjustified-justified deltas) refl

  revision_violations-justified :
      (rev : Option (ModelRevisionEvent F)) → is_empty (revision_violations rev) ≡ justified rev
  unfolding revision_violations
  revision_violations-justified none = refl
  revision_violations-justified (some rev) = unjustified-justified rev.deltas

module _ {F : Type 0} ⦃p : Platform F⦄ where
  -- the observation reaches both thresholds
  abbrev pub is_strong : DefaultMemoryPromotionPolicy F → Option (ObservationCandidate F) → Bool
  is_strong policy none = true
  is_strong policy (some o) =
      not (p.lt o.confidence policy.min_confidence)
      && not (p.lt o.evidence_weight policy.min_evidence_weight)

  observation_violations-is_strong :
      (policy : DefaultMemoryPromotionPolicy F) (o : Option (ObservationCandidate F))
      → is_empty (observation_violations policy o) ≡ is_strong policy o
  unfolding observation_violations
  observation_violations-is_strong policy none = refl
  observation_violations-is_strong policy (some o) =
      is_empty-append (violation (p.lt o.confidence policy.min_confidence) _) _
      ∙ rw (is_empty-violation, is_empty-violation) refl

  -- The default policy allows a request exactly if its task signature is not blank, its outcome and its
  -- source are listed, the text of its state difference is not too long, its observation, if it has
  -- one, reaches both thresholds, and every delta of its revision, if it has one, is justified.
  pub evaluate_promotion_allows :
      (policy : DefaultMemoryPromotionPolicy F) (request : MemoryPromotionRequest F)
      → (evaluate policy request).allowed ≡ (
          not (all_spaces request.task_signature)
          && (contains request.outcome outcomes
              && (contains request.source sources
                  && (not (ltb policy.max_state_diff_size (diff_size request))
                      && (is_strong policy request.observation
                          && justified request.revision_event)))))
  unfolding evaluate all_violations
  evaluate_promotion_allows policy request =
      decide-allowed _
      ∙ rw
          (
            is_empty-append,
            is_empty-append,
            is_empty-append,
            is_empty-append,
            is_empty-append,
            is_empty-violation,
            is_empty-violation,
            is_empty-violation,
            is_empty-violation,
            observation_violations-is_strong policy request.observation,
            revision_violations-justified request.revision_event,
          )
          (ground arith)
