-- ===== src/Hypotheses/Verdicts.antt =====
-- src/cee_core/hypothesis.py: when a hypothesis is accepted.
use cognitive_execution_engi.Prelude.{
  ◌+◌, ◌≤◌, String, ◌≡◌, ◌&&◌, not, Bool, List, [], ◌∷◌, Option, length, ltb, or_else, arith,
  if◌then◌else◌, from_keys, enter_all, enter, length-append,
}
use cognitive_execution_engi.Value.{Platform}
use cognitive_execution_engi.Hypotheses.{
  Hypothesis, VerificationCriteria, accepted, rejected, needs_more_evidence, default_criteria,
  independent_sources, verify_hypothesis, run_hypothesis_cycle,
}

-- the hypothesis has enough references, from enough different sources
abbrev pub is_supported : {F : Type 0} → Hypothesis F → VerificationCriteria F → Bool
is_supported h criteria =
    not (ltb (length h.evidence_refs) criteria.min_evidence_count)
    && not (ltb (independent_sources h.evidence_refs) criteria.required_independent_sources)

length-enter_all : (seen xs : List String) → length (enter_all seen xs) ≤ length seen + length xs
unfolding enter_all
length-enter_all seen [] = omega arith
length-enter_all seen (x ∷ xs) =
    ground (arith, length-enter_all (enter seen x) xs, length-append seen (x ∷ []))

module _ {F : Type 0} ⦃p : Platform F⦄ where
  -- The cycle of a hypothesis asks for more evidence exactly if the references are too few, or from too
  -- few sources; otherwise it rejects the hypothesis exactly if its confidence is below the minimum, and
  -- accepts it if not. There are never more sources than references.
  pub run_hypothesis_cycle-verdict :
      (cycle_id verification_id : String) (h : Hypothesis F)
      (given : Option (VerificationCriteria F))
      → let criteria = or_else given default_criteria in
        let result = (run_hypothesis_cycle cycle_id verification_id h given).result in
        (result.verdict ≡ (
          if is_supported h criteria
          then (if p.lt h.confidence criteria.min_confidence then rejected else accepted)
          else needs_more_evidence))
        × (result.independent_source_count ≤ result.evidence_count)
  unfolding run_hypothesis_cycle verify_hypothesis independent_sources from_keys
  run_hypothesis_cycle-verdict cycle_id verification_id h given =
      (ground arith, ground (arith, length-enter_all [] h.evidence_refs))
