-- ===== src/DeltaPolicy/Overlay.antt =====
-- What the delta policy lets through, alone and under a domain's overlay.
use cognitive_execution_engi.Prelude.{
  String, ◌≡◌, refl, ap, ◌∙◌, Bool, true, false, ◌||◌, ◌&&◌, not, none, some, ◌<>◌, has_prefix,
  contains, arith, strip_prefix, strip_prefix-diverge, diverge,
}
use cognitive_execution_engi.World.Schema.{
  RevisionDelta, RevisionTargetKind, entity_update, self_update,
}
use cognitive_execution_engi.DeltaPolicy.{
  DomainPluginPack, DomainContext, evaluate_delta_policy, infer_section_from_delta,
  evaluate_delta_policy_in_domain,
}

-- The delta aims at the policy or the metadata of the state.
abbrev pub is_sealed : String → Bool
is_sealed ref = has_prefix "policy." ref || has_prefix "meta." ref

abbrev pub is_self_update : RevisionTargetKind → Bool
is_self_update self_update = true
is_self_update _ = false

module _ {F : Type 0} where
  -- A delta is allowed exactly if it aims at none of `policy.`, `meta.` and `tool_affordances.` and
  -- does not update the self model; and approval is asked for exactly if it is not allowed and aims
  -- at neither of `policy.` and `meta.`, which no approval opens.
  pub evaluate_delta_policy-allows :
      (delta : RevisionDelta F)
      → ((evaluate_delta_policy delta).allowed ≡ (
          not (is_sealed delta.target_ref)
          && not (has_prefix "tool_affordances." delta.target_ref)
          && not (is_self_update delta.target_kind)))
        × ((evaluate_delta_policy delta).requires_approval
            ≡ (not (evaluate_delta_policy delta).allowed && not (is_sealed delta.target_ref)))
  unfolding evaluate_delta_policy
  evaluate_delta_policy-allows delta = (ground arith, ground arith)

  -- the pack has rules, and the section of the delta is among those denied
  abbrev pub denies : DomainContext → RevisionDelta F → Bool
  denies context delta = elim context.plugin_pack [
    | none ↦ false
    | some pack ↦ contains (infer_section_from_delta delta) pack.denied_patch_sections
  ]

  abbrev pub asks : DomainContext → RevisionDelta F → Bool
  asks context delta = elim context.plugin_pack [
    | none ↦ false
    | some pack ↦ contains (infer_section_from_delta delta) pack.approval_required_patch_sections
  ]

  -- A domain only makes the policy stricter: a delta is allowed in the domain exactly if the base
  -- policy allows it and the domain neither denies its section nor asks approval for it. Approval is
  -- asked for exactly if the section is not denied and the base policy asks for it, or allows the
  -- delta and the domain asks. The kind of commitment and its reversibility are the base policy's.
  pub evaluate_delta_policy_in_domain-tightens :
      (delta : RevisionDelta F) (context : DomainContext)
      → let base = evaluate_delta_policy delta in
        let decision = evaluate_delta_policy_in_domain delta context in
        (decision.allowed
          ≡ (base.allowed && not (denies context delta) && not (asks context delta)))
        × (decision.requires_approval ≡ (
            not (denies context delta)
            && (base.requires_approval || base.allowed && asks context delta)))
        × (decision.commitment_kind ≡ base.commitment_kind)
        × (decision.reversibility ≡ base.reversibility)
  unfolding evaluate_delta_policy_in_domain
  evaluate_delta_policy_in_domain-tightens delta context =
      (ground arith, ground arith, ground arith, ground arith)

  module _ (delta : RevisionDelta F) (key : String)
      (at : delta.target_ref ≡ "domain_data." <> key) where
    -- a prefix that diverges from `domain_data.` is not found
    misses : (p : String) → diverge p "domain_data." ≡ true → strip_prefix p delta.target_ref ≡ none
    misses p h = ap (strip_prefix p) at ∙ strip_prefix-diverge p "domain_data." key h

    section-eq-beliefs :
        delta.target_kind ≡ entity_update → infer_section_from_delta delta ≡ "beliefs"
    unfolding infer_section_from_delta diverge
    section-eq-beliefs k = ground (arith, misses "memory." refl, misses "domain." refl)

    allowed_by_base :
        delta.target_kind ≡ entity_update → (evaluate_delta_policy delta).allowed ≡ true
    unfolding evaluate_delta_policy diverge
    allowed_by_base k =
        ground (arith, misses "policy." refl, misses "meta." refl, misses "tool_affordances." refl)

  -- A delta on `domain_data.k` is filed under the beliefs, not under the domain data: whatever pack
  -- denies or gates the section `domain_data`, it is allowed unless the pack names `beliefs`.
  domain_data_filed_as_beliefs :
      (delta : RevisionDelta F) (domain key : String) (pack : DomainPluginPack)
      → delta.target_kind ≡ entity_update
      → delta.target_ref ≡ "domain_data." <> key
      → contains "beliefs" pack.denied_patch_sections ≡ false
      → contains "beliefs" pack.approval_required_patch_sections ≡ false
      → (evaluate_delta_policy_in_domain delta
          (record { domain_name = domain; plugin_pack = some pack })).allowed
        ≡ true
  unfolding evaluate_delta_policy_in_domain
  domain_data_filed_as_beliefs delta domain key pack k r d a =
      ground (arith, section-eq-beliefs delta key r k, allowed_by_base delta key r k)
