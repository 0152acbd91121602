-- ===== src/Approval/Gate.antt =====
-- The approval gate decides every event that requires approval, once, and no other.
use cognitive_execution_engi.Prelude.{◌≡◌, refl, Bool, true, false, List, [], ◌∷◌, map, keep}
use cognitive_execution_engi.Outcome.{Outcome, ok}
use cognitive_execution_engi.Exec.{Exec}
use cognitive_execution_engi.Commitment.{CommitmentEvent}
use cognitive_execution_engi.Approval.{
  ApprovalDecision, ApprovalProvider, ApprovalGateResult, ApprovalVerdict, approved, rejected,
  record_decision, put_to, resolve,
}

abbrev pub is_gated : {F : Type 0} → CommitmentEvent F → Bool
is_gated event = event.requires_approval

-- an event with the decision on it
abbrev pub Decided : Type 0 → Type 0
Decided F = CommitmentEvent F × ApprovalDecision F

abbrev pub says_yes : {F : Type 0} → Decided F → Bool
says_yes pair = elim pair.1.verdict [ approved ↦ true | rejected ↦ false ]

abbrev pub says_no : {F : Type 0} → Decided F → Bool
says_no pair = elim pair.1.verdict [ approved ↦ false | rejected ↦ true ]

-- The result sorts the events by their decisions, and reports all decisions, in order.
pub record Sorts {F : Type 0} (pairs : List (Decided F)) (result : ApprovalGateResult F)
    : Type 0 where
  pub all_decisions : result.decisions ≡ map (λ pair. pair.1) pairs
  pub approved_ones : result.approved_transitions ≡ map (λ pair. pair.0) (keep says_yes pairs)
  pub rejected_ones : result.rejected_transitions ≡ map (λ pair. pair.0) (keep says_no pairs)

module _ {F W : Type 0} (provider : ApprovalProvider F W) where
  -- the provider returns a decision, and the world after it
  abbrev pub Decides : CommitmentEvent F → W → Type 0
  Decides event w =
      (decision : ApprovalDecision F) × (w' : W) × (provider.decide event w ≡ (ok decision, w'))

  -- The provider was asked about the events one after the other, each in the world that the one
  -- before left, and decided as in the pairs.
  pub data Asked : W → List (Decided F) → W → Type 0 where
    nobody : {w : W} → Asked w [] w
    next :
        {w mid last : W} {event : CommitmentEvent F} {decision : ApprovalDecision F}
        {pairs : List (Decided F)}
        → provider.decide event w ≡ (ok decision, mid)
        → Asked mid pairs last
        → Asked w ((event, decision) ∷ pairs) last

  -- The gate returns; it has asked about the events that require approval, and its result sorts them
  -- by the provider's decisions.
  abbrev pub Resolved : List (CommitmentEvent F) → W → Outcome (ApprovalGateResult F) × W → Type 0
  Resolved events w run =
      (result : ApprovalGateResult F) × (w' : W) × (pairs : List (Decided F)) × (run
        ≡ (ok result, w'))
      × (map (λ pair. pair.0) pairs ≡ keep is_gated events)
      × Asked w pairs w'
      × Sorts pairs result

  record_decision-Sorts :
      (verdict : ApprovalVerdict) (event : CommitmentEvent F) (decision : ApprovalDecision F)
      (pairs : List (Decided F)) (result : ApprovalGateResult F)
      → decision.verdict ≡ verdict
      → Sorts pairs result
      → Sorts ((event, decision) ∷ pairs) (record_decision event decision result)
  record_decision-Sorts approved event decision pairs result h s = record {
    all_decisions = rw h (rw s.all_decisions refl);
    approved_ones = rw h (rw s.approved_ones refl);
    rejected_ones = rw h s.rejected_ones;
  }
  record_decision-Sorts rejected event decision pairs result h s = record {
    all_decisions = rw h (rw s.all_decisions refl);
    approved_ones = rw h s.approved_ones;
    rejected_ones = rw h (rw s.rejected_ones refl);
  }

  put_to-Resolved :
      (event : CommitmentEvent F) (events : List (CommitmentEvent F)) (b : Bool)
      (rest : Exec W (ApprovalGateResult F))
      → event.requires_approval ≡ b
      → ((w : W) → Decides event w)
      → ((w : W) → Resolved events w (rest w))
      → (w : W) → Resolved (event ∷ events) w (put_to provider event b rest w)
  unfolding put_to
  put_to-Resolved event events false rest free total ih w = rw free (ih w)
  put_to-Resolved event events true rest gated total ih w =
      let (decision, mid, decided) = total w in
      let (result, last, pairs, run, same, asked, sorts) = ih mid in
      (
        record_decision event decision result,
        last,
        (event, decision) ∷ pairs,
        rw (decided, run) refl,
        rw (gated, same) refl,
        next decided asked,
        record_decision-Sorts decision.verdict event decision pairs result refl sorts,
      )

  -- A gate whose provider always decides returns. It has asked the provider about exactly the given
  -- events that require approval, in their order and each once; the approved events are those that
  -- the provider approved, the rejected ones those that it rejected, and every decision is reported.
  pub resolve-Resolved :
      ((event : CommitmentEvent F) (w : W) → Decides event w)
      → (events : List (CommitmentEvent F)) (w : W) → Resolved events w (resolve provider events w)
  unfolding resolve
  resolve-Resolved total [] w = (
    _,
    w,
    [],
    refl,
    refl,
    nobody,
    record { all_decisions = refl; approved_ones = refl; rejected_ones = refl },
  )
  resolve-Resolved total (event ∷ events) w =
      put_to-Resolved event events event.requires_approval (resolve provider events) refl
        (total event) (resolve-Resolved total events) w
