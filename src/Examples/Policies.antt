-- ===== src/Examples/Policies.antt =====
-- The policies, the tool registry, the approval gate and the deliberation on concrete inputs.
use cognitive_execution_engi.Prelude.{
  ℕ, suc, String, ◌≡◌, ◌↔◌, ◌⊎◌, refl, true, ◌||◌, ◌&&◌, not, List, [], ◌∷◌, some, length,
  has_prefix, if◌then◌else◌,
}
use cognitive_execution_engi.World.Schema.{RevisionDelta, entity_update, goal_update}
use cognitive_execution_engi.Commitment.{
  act, observe, tool_contact, internal_commit, reversible, partially_reversible, irreversible,
}
use cognitive_execution_engi.Commitment.Policy.{evaluate, evaluate_allows}
use cognitive_execution_engi.Revision.{confirmation, other_revision}
use cognitive_execution_engi.Revision.Policy.{
  evaluate as evaluate_revision, AllSound, evaluate-AllSound,
}
use cognitive_execution_engi.DeltaPolicy.{
  DomainPluginPack, DomainContext, evaluate_delta_policy, evaluate_delta_policy_in_domain,
}
use cognitive_execution_engi.DeltaPolicy.Overlay.{
  is_sealed, is_self_update, denies, asks, evaluate_delta_policy-allows,
  evaluate_delta_policy_in_domain-tightens,
}
use cognitive_execution_engi.Approval.{ApprovalProvider, approved, static_provider, resolve}
use cognitive_execution_engi.Approval.Gate.{Resolved, resolve-Resolved}
use cognitive_execution_engi.Task.{asks_for_docs}
use cognitive_execution_engi.Deliberation.{
  propose_plan, deliberate_chain, chain_is_terminal, final_action, supports_read_docs,
}
use cognitive_execution_engi.Deliberation.Chain.{deliberate_chain_ends}
use cognitive_execution_engi.Examples.{fixed_point, house, push, delta_at, tools, task}

evaluate_allows_example :
    ((evaluate act (some irreversible)).allowed ≡ true
      ↔ (act ≡ observe)
        ⊎ (act ≡ tool_contact)
        ⊎ (act ≡ internal_commit)
        ⊎ (act ≡ act)
          × ((some irreversible ≡ some reversible)
              ⊎ (some irreversible ≡ some partially_reversible)))
    × ((evaluate act (some irreversible)).requires_approval
        ≡ not (evaluate act (some irreversible)).allowed)
evaluate_allows_example = evaluate_allows act (some irreversible)

abbrev updates : List (RevisionDelta ℕ)
updates = delta_at entity_update "beliefs.door" ∷ []

evaluate-AllSound_example :
    ((evaluate_revision updates house confirmation).allowed ≡ true
      ↔ ((s : String) → ¬ (confirmation ≡ other_revision s)) × AllSound house updates)
    × ((evaluate_revision updates house confirmation).violated_rules ≡ []
        ↔ (evaluate_revision updates house confirmation).allowed ≡ true)
evaluate-AllSound_example = evaluate-AllSound updates house confirmation

evaluate_delta_policy-allows_example :
    ((evaluate_delta_policy (delta_at entity_update "policy.rules")).allowed ≡ (
      not (is_sealed "policy.rules")
      && not (has_prefix "tool_affordances." "policy.rules")
      && not (is_self_update entity_update)))
    × ((evaluate_delta_policy (delta_at entity_update "policy.rules")).requires_approval ≡ (
        not (evaluate_delta_policy (delta_at entity_update "policy.rules")).allowed
        && not (is_sealed "policy.rules")))
evaluate_delta_policy-allows_example =
    evaluate_delta_policy-allows (delta_at entity_update "policy.rules")

abbrev pack : DomainPluginPack
pack = record {
  denied_patch_sections = "domain_data" ∷ [];
  approval_required_patch_sections = "goals" ∷ [];
}

abbrev context : DomainContext
context = record { domain_name = "core"; plugin_pack = some pack }

evaluate_delta_policy_in_domain-tightens_example :
    let base = evaluate_delta_policy (delta_at goal_update "goals.active") in
    let decision = evaluate_delta_policy_in_domain (delta_at goal_update "goals.active") context in
    (decision.allowed ≡ (
      base.allowed
      && not (denies context (delta_at goal_update "goals.active"))
      && not (asks context (delta_at goal_update "goals.active"))))
    × (decision.requires_approval ≡ (
        not (denies context (delta_at goal_update "goals.active"))
        && (base.requires_approval
            || base.allowed && asks context (delta_at goal_update "goals.active"))))
    × (decision.commitment_kind ≡ base.commitment_kind)
    × (decision.reversibility ≡ base.reversibility)
evaluate_delta_policy_in_domain-tightens_example =
    evaluate_delta_policy_in_domain-tightens (delta_at goal_update "goals.active") context

-- a provider that approves everything
abbrev approving : ApprovalProvider ℕ ℕ
approving = static_provider approved "a person" "fine" "ar_1" "ap_1" "2026-01-01"

resolve-Resolved_example : Resolved approving (push ∷ []) 0 (resolve approving (push ∷ []) 0)
unfolding static_provider
resolve-Resolved_example = resolve-Resolved approving (λ event w. (_, w, refl)) (push ∷ []) 0

deliberate_chain_ends_example :
    let steps = deliberate_chain task (some tools) (λ n. "s") (suc (suc 3)) in
    (chain_is_terminal steps ≡ true)
    × (length steps ≡ (if asks_for_docs task && supports_read_docs (some tools) then 2 else 1))
    × (asks_for_docs task && supports_read_docs (some tools) ≡ true
        → final_action steps ≡ propose_plan)
deliberate_chain_ends_example = deliberate_chain_ends task (some tools) (λ n. "s") 3
