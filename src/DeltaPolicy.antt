-- ===== src/DeltaPolicy.antt =====
-- src/cee_core/planner.py, the policy on revision deltas, with the domain overlay of
-- src/cee_core/domain_context.py and src/cee_core/domain_plugins.py (of a plugin pack, the two
-- fields that the overlay reads). The proofs are in `Overlay`.
pub mod Overlay
use cognitive_execution_engi.Prelude.{
  String, Bool, true, false, ◌||◌, ◌&&◌, List, Option, none, some, ◌<>◌, has_prefix, contains,
  if◌then◌else◌,
}
use cognitive_execution_engi.World.Schema.{
  RevisionDelta, RevisionTargetKind, entity_add, entity_update, hypothesis_add, hypothesis_update,
  anchor_add, goal_update, self_update, target_text,
}
use cognitive_execution_engi.Commitment.{
  CommitmentKind, observe, act, internal_commit, Reversibility, reversible, partially_reversible,
  irreversible,
}

pub record DeltaPolicyDecision : Type 0 where
  pub allowed : Bool
  pub requires_approval : Bool
  pub reason : String
  pub commitment_kind : CommitmentKind
  pub reversibility : Reversibility

abbrev allow : String → CommitmentKind → Reversibility → DeltaPolicyDecision
allow reason kind r = record {
  allowed = true;
  requires_approval = false;
  reason = reason;
  commitment_kind = kind;
  reversibility = r;
}

abbrev ask : String → DeltaPolicyDecision
ask reason = record {
  allowed = false;
  requires_approval = true;
  reason = reason;
  commitment_kind = internal_commit;
  reversibility = reversible;
}

unfoldable pub entity_policy : String → DeltaPolicyDecision
entity_policy target_ref =
    if has_prefix "memory." target_ref
    then allow "memory patch allowed by Stage 0 policy" internal_commit reversible
    else allow "beliefs patch allowed by Stage 0 policy" observe reversible

-- the tests on `target_kind`, in order
unfoldable pub kind_policy : RevisionTargetKind → String → DeltaPolicyDecision
unfolding entity_policy target_text
kind_policy self_update ref = ask ("self_model patch requires approval: " <> ref)
kind_policy goal_update ref = allow "goals patch allowed by Stage 0 policy" act partially_reversible
kind_policy entity_update ref = entity_policy ref
kind_policy entity_add ref = entity_policy ref
kind_policy hypothesis_add ref =
    allow (target_text hypothesis_add <> " allowed by Stage 0 policy") observe reversible
kind_policy hypothesis_update ref =
    allow (target_text hypothesis_update <> " allowed by Stage 0 policy") observe reversible
kind_policy anchor_add ref =
    allow (target_text anchor_add <> " allowed by Stage 0 policy") observe reversible
kind_policy kind ref =
    allow (target_text kind <> " patch allowed by default policy") internal_commit reversible

module _ {F : Type 0} where
  unfoldable pub evaluate_delta_policy : RevisionDelta F → DeltaPolicyDecision
  unfolding kind_policy
  evaluate_delta_policy delta =
      let ref = delta.target_ref in
      if has_prefix "policy." ref || has_prefix "meta." ref
      then record {
        allowed = false;
        requires_approval = false;
        reason = "policy/meta patch denied by Stage 0 policy: " <> ref;
        commitment_kind = internal_commit;
        reversibility = irreversible;
      }
      else if has_prefix "tool_affordances." ref
      then ask ("tool_affordances patch requires approval: " <> ref)
      else kind_policy delta.target_kind ref

pub record DomainPluginPack : Type 0 where
  pub denied_patch_sections : List String
  pub approval_required_patch_sections : List String

pub record DomainContext : Type 0 where
  pub domain_name : String
  pub plugin_pack : Option DomainPluginPack

section_of_ref : String → String
section_of_ref ref =
    if has_prefix "memory." ref
    then "memory"
    else if has_prefix "domain." ref
    then "domain_data"
    else "beliefs"

section_of : RevisionTargetKind → String → String
unfolding section_of_ref
section_of goal_update ref = "goals"
section_of self_update ref = "self_model"
section_of _ ref = section_of_ref ref

-- the base decision made stricter by a pack, for the section
overlay : String → DeltaPolicyDecision → String → DomainPluginPack → DeltaPolicyDecision
overlay section base domain pack =
    if contains section pack.denied_patch_sections
    then record base {
      allowed = false;
      requires_approval = false;
      reason =
          "domain policy denies patch section '" <> section <> "' in domain '" <> domain <> "'";
    }
    else if contains section pack.approval_required_patch_sections && base.allowed
    then record base {
      allowed = false;
      requires_approval = true;
      reason =
          "domain policy requires approval for patch section '" <> section <> "' in domain '"
          <> domain <> "'";
    }
    else base

module _ {F : Type 0} where
  unfoldable pub infer_section_from_delta : RevisionDelta F → String
  unfolding section_of
  infer_section_from_delta delta = section_of delta.target_kind delta.target_ref

  unfoldable pub apply_domain_overlay :
      RevisionDelta F → DeltaPolicyDecision → DomainContext → DeltaPolicyDecision
  unfolding overlay
  apply_domain_overlay delta base context = elim context.plugin_pack [
    | none ↦ base
    | some pack ↦ overlay (infer_section_from_delta delta) base context.domain_name pack
  ]

  unfoldable pub evaluate_delta_policy_in_domain :
      RevisionDelta F → DomainContext → DeltaPolicyDecision
  unfolding apply_domain_overlay
  evaluate_delta_policy_in_domain delta context =
      apply_domain_overlay delta (evaluate_delta_policy delta) context
