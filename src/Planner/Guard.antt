-- ===== src/Planner/Guard.antt =====
-- src/cee_core/planner.py: what no plan can do, and the counts of its result.
use cognitive_execution_engi.Prelude.{
  ◌+◌, ◌≡◌, refl, ap, sym, ◌∙◌, ◌&&◌, ◌||◌, not, Bool, true, false, List, [], ◌∷◌, map, keep,
  length, any, arith, some, Bool-cases, inl, inr, count_if, has_prefix, length-map,
}
use cognitive_execution_engi.Value.{Platform}
use cognitive_execution_engi.Outcome.{Returns}
use cognitive_execution_engi.World.Schema.{RevisionDelta}
use cognitive_execution_engi.Revision.{ModelRevisionEvent}
use cognitive_execution_engi.DeltaPolicy.{evaluate_delta_policy}
use cognitive_execution_engi.DeltaPolicy.Overlay.{
  is_sealed, is_self_update, evaluate_delta_policy-allows,
}
use cognitive_execution_engi.Tools.{ToolRegistry}
use cognitive_execution_engi.EventLog.{EventLog}
use cognitive_execution_engi.Planner.{
  PlanSpec, takes_effect, execute_plan, allowed_count, blocked_count, requires_approval_count,
}
use cognitive_execution_engi.Planner.Audit.{passes, execute_plan-IsAudit}

module _ {F : Type 0} where
  -- the delta aims at the policy, the metadata, the tools or the self model
  abbrev pub is_guarded : RevisionDelta F → Bool
  is_guarded delta =
      is_sealed delta.target_ref
      || (has_prefix "tool_affordances." delta.target_ref || is_self_update delta.target_kind)

  passes-guarded : (delta : RevisionDelta F) → passes delta ≡ true → is_guarded delta ≡ false
  passes-guarded delta passed = ground (arith, evaluate_delta_policy-allows delta)

  -- the revisions hold a guarded delta
  unfoldable pub any_guarded : List (ModelRevisionEvent F) → Bool
  any_guarded revs = any (any is_guarded) (map (λ (r : ModelRevisionEvent F). r.deltas) revs)

  none_guarded :
      (deltas : List (RevisionDelta F))
      → any (any is_guarded) (map (λ d. d ∷ []) (keep passes deltas)) ≡ false
  none_guarded [] = refl
  none_guarded (delta ∷ deltas) = elim (Bool-cases (passes delta)) [
    | inl passed ↦ rw (passed, passes-guarded delta passed) (none_guarded deltas)
    | inr held ↦ rw held (none_guarded deltas)
  ]

  -- Every decision is counted once.
  counts :
      (deltas : List (RevisionDelta F))
      → let decisions = map evaluate_delta_policy deltas in
        (count_if takes_effect decisions
            + count_if (λ d. not d.allowed && not d.requires_approval) decisions)
          + count_if (λ d. d.requires_approval) decisions
        ≡ length deltas
  counts [] = refl
  counts (delta ∷ deltas) = ground (arith, counts deltas)

  length-kept :
      (deltas : List (RevisionDelta F))
      → length (map (λ d. d ∷ []) (keep passes deltas))
        ≡ count_if takes_effect (map evaluate_delta_policy deltas)
  length-kept [] = refl
  length-kept (delta ∷ deltas) = ground (arith, length-kept deltas)

module _ {F : Type 0} ⦃p : Platform F⦄ where
  -- No plan revises the policy, the metadata, the tool affordances or the self model: an execution
  -- with a registry returns, and no delta of its revisions aims at one of them.
  pub execute_plan-guard :
      (plan : PlanSpec F) (tools : ToolRegistry F) (log : EventLog F)
      → Returns
          (λ result. any_guarded result.revision_events ≡ false)
          ((execute_plan plan (some tools) log).0)
  unfolding any_guarded
  execute_plan-guard plan tools log =
      let (result, records, run, audit, calls) = execute_plan-IsAudit plan tools log in
      rw (run, audit.revised) (none_guarded plan.candidate_deltas)

  -- The three counts of a result add up to the number of deltas of the plan, and there are as many
  -- revisions as the first of them says.
  execute_plan-counts :
      (plan : PlanSpec F) (tools : ToolRegistry F) (log : EventLog F)
      → Returns
          (λ result.
            ((allowed_count result + blocked_count result) + requires_approval_count result
              ≡ length plan.candidate_deltas)
            × (length result.revision_events ≡ allowed_count result))
          ((execute_plan plan (some tools) log).0)
  unfolding allowed_count blocked_count requires_approval_count
  execute_plan-counts plan tools log =
      let (result, records, run, audit, calls) = execute_plan-IsAudit plan tools log in
      rw (run, audit.decided)
        (
          counts plan.candidate_deltas,
          sym (length-map _ result.revision_events)
              ∙ ap length audit.revised
              ∙ length-kept plan.candidate_deltas,
        )
