-- ===== src/Serial/CommitmentVerdict.antt =====
-- src/cee_core/commitment_policy.py: `CommitmentPolicyDecision` as a payload.
use cognitive_execution_engi.Prelude.{◌≡◌, refl, [], ◌∷◌, true}
use cognitive_execution_engi.Value.{Value, Entries}
use cognitive_execution_engi.Outcome.{Outcome, ok, ◌>>=◌}
use cognitive_execution_engi.Schemas.{require_schema_version}
use cognitive_execution_engi.Serial.{dict_of, required, optional, as_text, as_bool}
use cognitive_execution_engi.Commitment.Policy.{CommitmentPolicyDecision}
use cognitive_execution_engi.Schemas.{commitment_policy_schema_version}

module _ {F : Type 0} where
  unfoldable pub to_dict : CommitmentPolicyDecision → Entries F
  unfolding dict_of
  to_dict r = dict_of (
      ("schema_version", Value.str commitment_policy_schema_version)
      ∷ ("allowed", Value.bool r.allowed)
      ∷ ("reason", Value.str r.reason)
      ∷ ("requires_approval", Value.bool r.requires_approval)
      ∷ [])

module _ {F : Type 0} where
  unfoldable pub from_dict : Entries F → Outcome (CommitmentPolicyDecision)
  unfolding require_schema_version required optional as_text as_bool
  from_dict payload = do
    checked ← require_schema_version payload commitment_policy_schema_version true
    allowed ← required "allowed" payload >>= as_bool
    reason ← required "reason" payload >>= as_text
    requires_approval ← required "requires_approval" payload >>= as_bool
    ok (record { allowed = allowed; reason = reason; requires_approval = requires_approval })

pub from_dict-to_dict :
    (F : Type 0) (r : CommitmentPolicyDecision) → from_dict (to_dict {F = F} r) ≡ ok r
unfolding from_dict to_dict require_schema_version required optional dict_of as_text as_bool
from_dict-to_dict F r = refl
