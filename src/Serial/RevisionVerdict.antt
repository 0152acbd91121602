-- ===== src/Serial/RevisionVerdict.antt =====
-- src/cee_core/revision_policy.py: `RevisionPolicyDecision` as a payload.
use cognitive_execution_engi.Prelude.{String, ◌≡◌, refl, [], ◌∷◌, true}
use cognitive_execution_engi.Value.{Value, Entries, nil}
use cognitive_execution_engi.Outcome.{Outcome, ok, ◌>>=◌}
use cognitive_execution_engi.Schemas.{require_schema_version}
use cognitive_execution_engi.Serial.{
  dict_of, required, optional, as_text, as_bool, as_texts, texts, as_texts-texts,
}
use cognitive_execution_engi.Revision.Policy.{RevisionPolicyDecision}

-- `REVISION_POLICY_SCHEMA_VERSION`
abbrev revision_policy_schema_version : String
revision_policy_schema_version = "cee.revision_policy.v1"

module _ {F : Type 0} where
  unfoldable pub to_dict : RevisionPolicyDecision → Entries F
  unfolding dict_of texts
  to_dict r = dict_of (
      ("schema_version", Value.str revision_policy_schema_version)
      ∷ ("allowed", Value.bool r.allowed)
      ∷ ("reason", Value.str r.reason)
      ∷ ("violated_rules", texts r.violated_rules)
      ∷ [])

module _ {F : Type 0} where
  unfoldable pub from_dict : Entries F → Outcome (RevisionPolicyDecision)
  unfolding require_schema_version required optional as_text as_bool as_texts
  from_dict payload = do
    checked ← require_schema_version payload revision_policy_schema_version true
    allowed ← required "allowed" payload >>= as_bool
    reason ← required "reason" payload >>= as_text
    violated_rules ← as_texts (optional "violated_rules" (Value.tuple nil) payload)
    ok (record { allowed = allowed; reason = reason; violated_rules = violated_rules })

pub from_dict-to_dict :
    (F : Type 0) (r : RevisionPolicyDecision) → from_dict (to_dict {F = F} r) ≡ ok r
unfolding from_dict to_dict require_schema_version required optional dict_of as_text as_bool
from_dict-to_dict F r = rw (as_texts-texts F r.violated_rules) refl
