-- ===== src/Hypotheses/Routes.antt =====
-- src/cee_core/uncertainty_router.py: where an execution is routed to.
use cognitive_execution_engi.Prelude.{
  ℕ, ◌==◌, ◌≡◌, refl, ◌∙◌, ◌&&◌, not, Bool, true, false, List, [], ◌∷◌, Option, none, some, or_else,
  lookup, arith, if◌then◌else◌,
}
use cognitive_execution_engi.Value.{Platform}
use cognitive_execution_engi.Hypotheses.Router.{
  RoutingDecision, auto_execute, needs_more_evidence, RoutingSignals, RouterConfig,
  calculate_evidence_score, calculate_precedent_score, calculate_risk_score,
  calculate_success_score, calculate_confidence_score, score_or_half, combined_confidence,
  make_decision, route,
}

abbrev pub is_auto : RoutingDecision → Bool
is_auto auto_execute = true
is_auto _ = false

abbrev pub asks_evidence : RoutingDecision → Bool
asks_evidence needs_more_evidence = true
asks_evidence _ = false

module _ {F : Type 0} ⦃p : Platform F⦄ where
  -- the score of the first test that holds, or the lowest
  unfoldable pub graded : List (Bool × F) → F → F
  graded [] lowest = lowest
  graded ((reached, score) ∷ steps) lowest =
      let rest = graded steps lowest in if reached then score else rest

  -- the scores, each by its weight in hundredths, added one after the other to what there is
  unfoldable pub weighted : F → List (ℕ × F) → F
  weighted sum [] = sum
  weighted sum ((weight, score) ∷ rest) =
      weighted (p.add sum (p.mul score (p.decimal weight 2))) rest

  -- How the router weighs its five signals: 25 for the evidence, 15 for the precedents, 30 for the
  -- risk, 15 for the history and 15 for the model.
  unfoldable pub weighed : RouterConfig F → RoutingSignals F → F
  unfolding graded weighted lookup
  weighed config signals =
      let one = p.decimal 1 0 in
      let half = p.decimal 5 1 in
      let evidence = signals.evidence_coverage in
      let precedent = signals.precedent_similarity in
      let history = signals.historical_success_rate in
      let model = signals.model_self_confidence in
      weighted
        (p.mul
          (graded
            ((p.le config.min_evidence_for_auto evidence, one)
              ∷ (p.le config.min_evidence_for_review evidence, half)
              ∷ [])
            (p.decimal 0 0))
          (p.decimal 25 2))
        ((
          15,
          graded
              ((p.le config.min_precedent_for_auto precedent, one)
                ∷ (p.lt (p.decimal 3 1) precedent, half)
                ∷ [])
              (p.decimal 3 1),
        )
          ∷ (30, or_else (lookup signals.tool_risk_level config.risk_level_scores) half)
          ∷ (
            15,
            graded
                ((p.le config.min_success_rate_for_auto history, one)
                  ∷ (p.le config.min_success_rate_for_review history, half)
                  ∷ [])
                (p.decimal 0 0),
          )
          ∷ (
            15,
            graded
                ((p.le config.min_model_confidence_for_auto model, one)
                  ∷ (p.le config.min_model_confidence_for_review model, half)
                  ∷ [])
                (p.decimal 0 0),
          )
          ∷ [])

  evidence_graded :
      (config : RouterConfig F) (x : F)
      → (calculate_evidence_score config x).0
        ≡ graded
            ((p.le config.min_evidence_for_auto x, p.decimal 1 0)
              ∷ (p.le config.min_evidence_for_review x, p.decimal 5 1)
              ∷ [])
            (p.decimal 0 0)
  unfolding calculate_evidence_score graded
  evidence_graded config x = ground arith

  precedent_graded :
      (config : RouterConfig F) (x : F)
      → (calculate_precedent_score config x).0
        ≡ graded
            ((p.le config.min_precedent_for_auto x, p.decimal 1 0)
              ∷ (p.lt (p.decimal 3 1) x, p.decimal 5 1)
              ∷ [])
            (p.decimal 3 1)
  unfolding calculate_precedent_score graded
  precedent_graded config x = ground arith

  success_graded :
      (config : RouterConfig F) (x : F)
      → (calculate_success_score config x).0
        ≡ graded
            ((p.le config.min_success_rate_for_auto x, p.decimal 1 0)
              ∷ (p.le config.min_success_rate_for_review x, p.decimal 5 1)
              ∷ [])
            (p.decimal 0 0)
  unfolding calculate_success_score graded
  success_graded config x = ground arith

  confidence_graded :
      (config : RouterConfig F) (x : F)
      → (calculate_confidence_score config x).0
        ≡ graded
            ((p.le config.min_model_confidence_for_auto x, p.decimal 1 0)
              ∷ (p.le config.min_model_confidence_for_review x, p.decimal 5 1)
              ∷ [])
            (p.decimal 0 0)
  unfolding calculate_confidence_score graded
  confidence_graded config x = ground arith

  score_or_half_lem : (found : Option F) → score_or_half found ≡ or_else found (p.decimal 5 1)
  unfolding score_or_half
  score_or_half_lem none = refl
  score_or_half_lem (some score) = refl

  -- the sum of five scores by the weights
  summed : F → F → F → F → F → F
  summed e q r h m =
      weighted (p.mul e (p.decimal 25 2)) ((15, q) ∷ (30, r) ∷ (15, h) ∷ (15, m) ∷ [])

  combined_confidence-summed :
      (config : RouterConfig F) (signals : RoutingSignals F)
      → combined_confidence config signals
        ≡ summed
            (calculate_evidence_score config signals.evidence_coverage).0
            (calculate_precedent_score config signals.precedent_similarity).0
            (score_or_half (lookup signals.tool_risk_level config.risk_level_scores))
            (calculate_success_score config signals.historical_success_rate).0
            (calculate_confidence_score config signals.model_self_confidence).0
  unfolding combined_confidence summed weighted calculate_risk_score
  combined_confidence-summed config signals = refl

  combined_confidence-weighed :
      (config : RouterConfig F) (signals : RoutingSignals F)
      → combined_confidence config signals ≡ weighed config signals
  unfolding weighed summed
  combined_confidence-weighed config signals =
      combined_confidence-summed config signals
      ∙ rw
          (
            evidence_graded config signals.evidence_coverage,
            precedent_graded config signals.precedent_similarity,
            success_graded config signals.historical_success_rate,
            confidence_graded config signals.model_self_confidence,
            score_or_half_lem (lookup signals.tool_risk_level config.risk_level_scores),
          )
          refl

  -- An execution goes on without review exactly if the tool's risk is neither critical nor high, the
  -- evidence is not below the minimum for a review, and the five signals, graded by the thresholds and
  -- weighed by 25, 15, 30, 15 and 15 hundredths, reach the minimum, which is the confidence that the
  -- result reports; more evidence is asked for exactly if the risk is not critical and the evidence is
  -- below that minimum for a review. All else goes to a person.
  pub route-decides :
      (config : RouterConfig F) (signals : RoutingSignals F)
      → let result = route config signals in
        let critical = signals.tool_risk_level == "critical" in
        let scarce = p.lt signals.evidence_coverage config.min_evidence_for_review in
        (is_auto result.decision ≡ (
          not critical
          && not (signals.tool_risk_level == "high")
          && not scarce
          && p.le config.min_combined_confidence (weighed config signals)))
        × (asks_evidence result.decision ≡ (not critical && scarce))
        × (result.confidence ≡ weighed config signals)
  unfolding route make_decision
  route-decides config signals =
      rw (combined_confidence-weighed config signals) (ground arith, ground arith, refl)
