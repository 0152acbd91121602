-- ===== src/Hypotheses.antt =====
-- src/cee_core/hypothesis.py and src/cee_core/uncertainty_router.py: the verification of a hypothesis and,
-- in `Router`, the routing of an execution. The generated ids are arguments. The proofs are in `Verdicts`
-- and `Routes`.
pub mod Router
pub mod Verdicts
pub mod Routes
use cognitive_execution_engi.Prelude.{
  ℕ, String, ◌<>◌, Bool, true, false, List, Option, none, some, length, show, ltb, or_else,
  from_keys, if◌then◌else◌,
}
use cognitive_execution_engi.Value.{Platform}

pub data HypothesisVerdict : Type 0 where
  accepted rejected needs_more_evidence : HypothesisVerdict

pub record Hypothesis (F : Type 0) : Type 0 where
  pub statement : String
  pub source_trace_id : String
  pub confidence : F
  pub evidence_refs : List String
  pub hypothesis_id : String

-- the two counts are taken as not negative
pub record VerificationCriteria (F : Type 0) : Type 0 where
  pub min_evidence_count : ℕ
  pub min_confidence : F
  pub required_independent_sources : ℕ

pub record VerificationResult (F : Type 0) : Type 0 where
  pub hypothesis_id : String
  pub verdict : HypothesisVerdict
  pub evidence_count : ℕ
  pub independent_source_count : ℕ
  pub confidence : F
  pub reason : String
  pub verification_id : String

pub record HypothesisCycle (F : Type 0) : Type 0 where
  pub hypothesis : Hypothesis F
  pub criteria : VerificationCriteria F
  pub result : VerificationResult F
  pub cycle_id : String

-- `HypothesisCycle.accepted`, of the verdict
abbrev pub is_accepted : HypothesisVerdict → Bool
is_accepted accepted = true
is_accepted _ = false

-- `len(set(refs))`
unfoldable pub independent_sources : List String → ℕ
unfolding from_keys
independent_sources refs = length (from_keys refs)

module _ {F : Type 0} ⦃p : Platform F⦄ where
  -- `VerificationCriteria()`
  abbrev pub default_criteria : VerificationCriteria F
  default_criteria = record {
    min_evidence_count = 2;
    min_confidence = p.decimal 7 1;
    required_independent_sources = 2;
  }

  -- the result on a hypothesis, with its verdict and reason
  abbrev pub verdict_on : String → Hypothesis F → HypothesisVerdict → String → VerificationResult F
  verdict_on verification_id h verdict reason = record {
    hypothesis_id = h.hypothesis_id;
    verdict = verdict;
    evidence_count = length h.evidence_refs;
    independent_source_count = independent_sources h.evidence_refs;
    confidence = h.confidence;
    reason = reason;
    verification_id = verification_id;
  }

  unfoldable pub verify_hypothesis :
      String → Hypothesis F → VerificationCriteria F → VerificationResult F
  unfolding independent_sources
  verify_hypothesis verification_id h criteria =
      let evidence_count = length h.evidence_refs in
      let sources = independent_sources h.evidence_refs in
      if ltb evidence_count criteria.min_evidence_count
      then verdict_on verification_id h needs_more_evidence (
          "evidence count "
          <> show evidence_count
          <> " is below minimum "
          <> show criteria.min_evidence_count)
      else if ltb sources criteria.required_independent_sources
      then verdict_on verification_id h needs_more_evidence (
          "independent source count "
          <> show sources
          <> " is below required "
          <> show criteria.required_independent_sources)
      else if p.lt h.confidence criteria.min_confidence
      then verdict_on verification_id h rejected (
          "confidence "
          <> p.two_places h.confidence
          <> " is below minimum "
          <> p.two_places criteria.min_confidence)
      else verdict_on verification_id h accepted (
          "hypothesis meets all criteria: evidence="
          <> show evidence_count
          <> ", sources="
          <> show sources
          <> ", confidence="
          <> p.two_places h.confidence)

  unfoldable pub run_hypothesis_cycle :
      String → String → Hypothesis F → Option (VerificationCriteria F) → HypothesisCycle F
  unfolding verify_hypothesis
  run_hypothesis_cycle cycle_id verification_id h given =
      let criteria = or_else given default_criteria in
      record {
        hypothesis = h;
        criteria = criteria;
        result = verify_hypothesis verification_id h criteria;
        cycle_id = cycle_id;
      }
