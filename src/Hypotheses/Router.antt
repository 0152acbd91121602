-- ===== src/Hypotheses/Router.antt =====
-- src/cee_core/uncertainty_router.py: the routing of an execution by its uncertainty signals.
use cognitive_execution_engi.Prelude.{
  String, ◌==◌, ◌<>◌, List, [], ◌∷◌, Option, none, some, lookup, if◌then◌else◌,
}
use cognitive_execution_engi.Value.{Platform}

pub data RoutingDecision : Type 0 where
  auto_execute needs_more_evidence needs_human_review : RoutingDecision

pub record RoutingSignals (F : Type 0) : Type 0 where
  pub evidence_coverage : F
  pub precedent_similarity : F
  pub tool_risk_level : String
  pub historical_success_rate : F
  pub model_self_confidence : F

pub record RouterConfig (F : Type 0) : Type 0 where
  pub min_evidence_for_auto : F
  pub min_evidence_for_review : F
  pub min_precedent_for_auto : F
  pub min_success_rate_for_auto : F
  pub min_success_rate_for_review : F
  pub min_model_confidence_for_auto : F
  pub min_model_confidence_for_review : F
  pub min_combined_confidence : F
  pub risk_level_scores : List (String × F)

pub record RoutingResult (F : Type 0) : Type 0 where
  pub decision : RoutingDecision
  pub confidence : F
  pub reasoning : String
  pub signals : RoutingSignals F
  pub thresholds_used : List (String × F)

module _ {F : Type 0} ⦃p : Platform F⦄ where
  -- `RouterConfig()`
  abbrev pub default_config : RouterConfig F
  default_config = record {
    min_evidence_for_auto = p.decimal 7 1;
    min_evidence_for_review = p.decimal 4 1;
    min_precedent_for_auto = p.decimal 6 1;
    min_success_rate_for_auto = p.decimal 8 1;
    min_success_rate_for_review = p.decimal 5 1;
    min_model_confidence_for_auto = p.decimal 8 1;
    min_model_confidence_for_review = p.decimal 5 1;
    min_combined_confidence = p.decimal 75 2;
    risk_level_scores =
        ("low", p.decimal 1 0)
        ∷ ("medium", p.decimal 7 1)
        ∷ ("high", p.decimal 3 1)
        ∷ ("critical", p.decimal 0 0)
        ∷ [];
  }

  -- each score comes with the line that it adds to the reasoning
  unfoldable pub calculate_evidence_score : RouterConfig F → F → F × String
  calculate_evidence_score config coverage =
      if p.le config.min_evidence_for_auto coverage
      then (
        p.decimal 1 0,
        "✓ Evidence coverage: " <> p.two_places coverage <> " (sufficient for auto-execute)",
      )
      else if p.le config.min_evidence_for_review coverage
      then (p.decimal 5 1, "⚠ Evidence coverage: " <> p.two_places coverage <> " (marginal)")
      else (p.decimal 0 0, "✗ Evidence coverage: " <> p.two_places coverage <> " (insufficient)")

  unfoldable pub calculate_precedent_score : RouterConfig F → F → F × String
  calculate_precedent_score config similarity =
      if p.le config.min_precedent_for_auto similarity
      then (
        p.decimal 1 0,
        "✓ Precedent similarity: " <> p.two_places similarity <> " (good precedents available)",
      )
      else if p.lt (p.decimal 3 1) similarity
      then (
        p.decimal 5 1,
        "⚠ Precedent similarity: " <> p.two_places similarity <> " (some precedents)",
      )
      else (
        p.decimal 3 1,
        "ℹ Precedent similarity: " <> p.two_places similarity <> " (few/no precedents)",
      )

  -- `risk_level_scores.get(risk_level, 0.5)`
  unfoldable pub score_or_half : Option F → F
  score_or_half none = p.decimal 5 1
  score_or_half (some score) = score

  unfoldable pub calculate_risk_score : RouterConfig F → String → F × String
  unfolding lookup score_or_half
  calculate_risk_score config level = (
    score_or_half (lookup level config.risk_level_scores),
    if level == "low"
        then "✓ Tool risk: " <> level <> " (safe)"
        else if level == "medium"
        then "⚠ Tool risk: " <> level <> " (moderate)"
        else if level == "high"
        then "✗ Tool risk: " <> level <> " (high - human review recommended)"
        else "✗✗ Tool risk: " <> level <> " (CRITICAL - requires human review)",
  )

  unfoldable pub calculate_success_score : RouterConfig F → F → F × String
  calculate_success_score config rate =
      if p.le config.min_success_rate_for_auto rate
      then (
        p.decimal 1 0,
        "✓ Historical success rate: " <> p.two_places rate <> " (excellent track record)",
      )
      else if p.le config.min_success_rate_for_review rate
      then (
        p.decimal 5 1,
        "⚠ Historical success rate: " <> p.two_places rate <> " (mixed track record)",
      )
      else (
        p.decimal 0 0,
        "✗ Historical success rate: " <> p.two_places rate <> " (poor track record)",
      )

  unfoldable pub calculate_confidence_score : RouterConfig F → F → F × String
  calculate_confidence_score config confidence =
      if p.le config.min_model_confidence_for_auto confidence
      then (p.decimal 1 0, "✓ Model confidence: " <> p.two_places confidence <> " (high)")
      else if p.le config.min_model_confidence_for_review confidence
      then (p.decimal 5 1, "⚠ Model confidence: " <> p.two_places confidence <> " (moderate)")
      else (p.decimal 0 0, "✗ Model confidence: " <> p.two_places confidence <> " (low)")

  -- the weighted sum of the five scores
  unfoldable pub combined_confidence : RouterConfig F → RoutingSignals F → F
  unfolding calculate_evidence_score calculate_precedent_score calculate_risk_score
      calculate_success_score calculate_confidence_score
  combined_confidence config signals =
      p.add
        (p.add
          (p.add
            (p.add
              (p.mul (calculate_evidence_score config signals.evidence_coverage).0 (p.decimal 25 2))
              (p.mul (calculate_precedent_score config signals.precedent_similarity).0
                (p.decimal 15 2)))
            (p.mul (calculate_risk_score config signals.tool_risk_level).0 (p.decimal 30 2)))
          (p.mul (calculate_success_score config signals.historical_success_rate).0
            (p.decimal 15 2)))
        (p.mul (calculate_confidence_score config signals.model_self_confidence).0 (p.decimal 15 2))

  -- `_make_decision`
  unfoldable pub make_decision : RouterConfig F → F → RoutingSignals F → RoutingDecision × String
  make_decision config combined signals =
      if signals.tool_risk_level == "critical"
      then (needs_human_review, "Critical risk tools always require human review")
      else if p.lt signals.evidence_coverage config.min_evidence_for_review
      then (
        needs_more_evidence,
        "Insufficient evidence coverage ("
            <> p.two_places signals.evidence_coverage
            <> " < "
            <> p.two_places config.min_evidence_for_review
            <> ")",
      )
      else if signals.tool_risk_level == "high"
      then (needs_human_review, "High-risk tools require human review")
      else if p.le config.min_combined_confidence combined
      then (
        auto_execute,
        "Combined confidence " <> p.two_places combined <> " meets threshold for auto-execution",
      )
      else (
        needs_human_review,
        "Combined confidence " <> p.two_places combined <> " below auto-execute threshold",
      )

  -- `UncertaintyRouter.route`
  unfoldable pub route : RouterConfig F → RoutingSignals F → RoutingResult F
  unfolding combined_confidence make_decision
  route config signals =
      let combined = combined_confidence config signals in
      let (decision, reason) = make_decision config combined signals in
      record {
        decision = decision;
        confidence = combined;
        reasoning =
            (calculate_evidence_score config signals.evidence_coverage).1
            <> "\n"
            <> (calculate_precedent_score config signals.precedent_similarity).1
            <> "\n"
            <> (calculate_risk_score config signals.tool_risk_level).1
            <> "\n"
            <> (calculate_success_score config signals.historical_success_rate).1
            <> "\n"
            <> (calculate_confidence_score config signals.model_self_confidence).1
            <> "\n"
            <> "\nFinal decision: "
            <> reason;
        signals = signals;
        thresholds_used =
            ("min_evidence_for_auto", config.min_evidence_for_auto)
            ∷ ("min_precedent_for_auto", config.min_precedent_for_auto)
            ∷ ("min_success_rate_for_auto", config.min_success_rate_for_auto)
            ∷ ("min_model_confidence_for_auto", config.min_model_confidence_for_auto)
            ∷ ("min_combined_confidence", config.min_combined_confidence)
            ∷ [];
      }
