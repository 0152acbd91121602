-- ===== src/Commitment/Policy.antt =====
-- src/cee_core/commitment_policy.py: the default commitment policy.
use cognitive_execution_engi.Prelude.{
  String, Bool, true, false, not, ◌<>◌, Option, none, some, ◌≡◌, refl, arith, ◌↔◌, ◌⊎◌,
}
use cognitive_execution_engi.Commitment.{
  CommitmentKind, observe, act, tool_contact, internal_commit, other_kind, Reversibility,
  reversible, partially_reversible, irreversible, other_reversibility, kind_text,
}

pub record CommitmentPolicyDecision : Type 0 where
  pub allowed : Bool
  pub reason : String
  pub requires_approval : Bool

unknown : CommitmentKind → CommitmentPolicyDecision
unfolding kind_text
unknown kind = record {
  allowed = false;
  reason = "unknown commitment kind: " <> kind_text kind;
  requires_approval = true;
}

evaluate_act : Option Reversibility → CommitmentPolicyDecision
unfolding unknown
evaluate_act none = record {
  allowed = false;
  reason = "act commitment requires explicit reversibility";
  requires_approval = true;
}
evaluate_act (some reversible) = record {
  allowed = true;
  reason = "reversible act allowed by default policy";
  requires_approval = false;
}
evaluate_act (some partially_reversible) = record {
  allowed = true;
  reason = "partially_reversible act allowed with warning by default policy";
  requires_approval = false;
}
evaluate_act (some irreversible) = record {
  allowed = false;
  reason = "irreversible act requires human approval";
  requires_approval = true;
}
evaluate_act (some (other_reversibility s)) = unknown act

-- `DefaultCommitmentPolicy.evaluate`
unfoldable pub evaluate : CommitmentKind → Option Reversibility → CommitmentPolicyDecision
unfolding evaluate_act
evaluate observe r = record {
  allowed = true;
  reason = "observe commitment allowed by default policy";
  requires_approval = false;
}
evaluate act r = evaluate_act r
evaluate tool_contact r = record {
  allowed = true;
  reason = "tool_contact commitment allowed by default policy";
  requires_approval = false;
}
evaluate internal_commit r = record {
  allowed = true;
  reason = "internal_commit allowed by default policy";
  requires_approval = false;
}
evaluate (other_kind s) r = unknown (other_kind s)

-- `evaluate_commitment_policy`: the given policy, or the default one
unfoldable pub evaluate_commitment_policy :
    CommitmentKind
    → Option Reversibility
    → Option (CommitmentKind → Option Reversibility → CommitmentPolicyDecision)
    → CommitmentPolicyDecision
unfolding evaluate
evaluate_commitment_policy kind r none = evaluate kind r
evaluate_commitment_policy kind r (some policy) = policy kind r

-- The default policy allows exactly the observations, tool contacts and internal commitments, and
-- the acts declared reversible or partially reversible; it asks for approval exactly where it does
-- not allow.
pub evaluate_allows :
    (kind : CommitmentKind) (r : Option Reversibility)
    → ((evaluate kind r).allowed ≡ true
        ↔ (kind ≡ observe)
          ⊎ (kind ≡ tool_contact)
          ⊎ (kind ≡ internal_commit)
          ⊎ (kind ≡ act) × ((r ≡ some reversible) ⊎ (r ≡ some partially_reversible)))
      × ((evaluate kind r).requires_approval ≡ not (evaluate kind r).allowed)
unfolding evaluate
evaluate_allows observe r = ((ground arith, ground arith), refl)
evaluate_allows act none = ((ground arith, ground arith), refl)
evaluate_allows act (some reversible) = ((ground arith, ground arith), refl)
evaluate_allows act (some _) = ((ground arith, ground arith), refl)
evaluate_allows _ r = ((ground arith, ground arith), refl)
