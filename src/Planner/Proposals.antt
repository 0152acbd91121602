-- ===== src/Planner/Proposals.antt =====
-- src/cee_core/planner.py with src/cee_core/deliberation.py: what the plan of a task comes to when it
-- is executed, and which calls it proposes.
use cognitive_execution_engi.Prelude.{
  String, ◌≡◌, refl, false, not, ◌&&◌, List, ◌++◌, map, count_if, keep, [], ◌∷◌, Option, some, none,
  ◌<>◌, if◌then◌else◌, diverge, strip_prefix, strip_prefix-diverge, Bool-cases, inl, inr,
}
use cognitive_execution_engi.Value
use cognitive_execution_engi.Value.{Platform}
use cognitive_execution_engi.World.Schema.{
  RevisionDelta, RevisionTargetKind, goal_update, entity_update, self_update,
}
use cognitive_execution_engi.Revision.{ModelRevisionEvent}
use cognitive_execution_engi.Outcome.{Returns}
use cognitive_execution_engi.DeltaPolicy.{
  DeltaPolicyDecision, evaluate_delta_policy, kind_policy, entity_policy,
}
use cognitive_execution_engi.Task.{TaskSpec, is_risky}
use cognitive_execution_engi.Tools.{ToolRegistry}
use cognitive_execution_engi.Deliberation.{ReasoningStep}
use cognitive_execution_engi.EventLog.{EventLog}
use cognitive_execution_engi.Planner.{
  execute_plan, takes_effect, allowed_count, blocked_count, requires_approval_count,
}
use cognitive_execution_engi.Planner.Tasks.{plan_from_task, base_deltas, risk_deltas, redirects}
use cognitive_execution_engi.Planner.Audit.{execute_plan-IsAudit}

-- A target that begins with `beliefs.task.` is none that the policy guards.
unguarded :
    (rest : String)
    → (strip_prefix "policy." ("beliefs.task." <> rest) ≡ none)
      × (strip_prefix "meta." ("beliefs.task." <> rest) ≡ none)
      × (strip_prefix "tool_affordances." ("beliefs.task." <> rest) ≡ none)
      × (strip_prefix "memory." ("beliefs.task." <> rest) ≡ none)
unfolding diverge
unguarded rest = (
  strip_prefix-diverge "policy." "beliefs.task." rest refl,
  strip_prefix-diverge "meta." "beliefs.task." rest refl,
  strip_prefix-diverge "tool_affordances." "beliefs.task." rest refl,
  strip_prefix-diverge "memory." "beliefs.task." rest refl,
)

abbrev pub target : {F : Type 0} → RevisionDelta F → RevisionTargetKind × String
target d = (d.target_kind, d.target_ref)

-- what the policy makes of the deltas of a task
abbrev Sorted : {F : Type 0} → ⦃p : Platform F⦄ → TaskSpec → List (RevisionDelta F) → Type 0
Sorted task deltas =
    (keep (λ d. takes_effect (evaluate_delta_policy d)) deltas ≡ base_deltas task)
    × (keep (λ d. (evaluate_delta_policy d).requires_approval) deltas ≡ risk_deltas task)
    × (count_if (λ (d : DeltaPolicyDecision). not d.allowed && not d.requires_approval)
          (map evaluate_delta_policy deltas)
        ≡ 0)
    × (count_if takes_effect (map evaluate_delta_policy deltas) ≡ 4)
    × (count_if (λ (d : DeltaPolicyDecision). d.requires_approval)
          (map evaluate_delta_policy deltas)
        ≡ (if is_risky task.risk_level then 1 else 0))

task_deltas :
    (F : Type 0) ⦃p : Platform F⦄ (task : TaskSpec)
    → Sorted {F = F} task (base_deltas task ++ risk_deltas task)
unfolding base_deltas risk_deltas evaluate_delta_policy kind_policy entity_policy strip_prefix
task_deltas F task =
    let (a, b, c, d) = unguarded (task.task_id <> ".objective") in
    let (e, f, g, h) = unguarded (task.task_id <> ".domain_name") in
    elim (Bool-cases (is_risky task.risk_level)) [
      | inl risky ↦ (
        rw (risky, a, b, c, d, e, f, g, h) refl,
        rw (risky, a, b, c, d, e, f, g, h) refl,
        rw (risky, a, b, c, d, e, f, g, h) refl,
        rw (risky, a, b, c, d, e, f, g, h) refl,
        rw (risky, a, b, c, d, e, f, g, h) refl,
      )
      | inr low ↦ (
        rw (low, a, b, c, d, e, f, g, h) refl,
        rw (low, a, b, c, d, e, f, g, h) refl,
        rw (low, a, b, c, d, e, f, g, h) refl,
        rw (low, a, b, c, d, e, f, g, h) refl,
        rw (low, a, b, c, d, e, f, g, h) refl,
      )
    ]

base_targets :
    (F : Type 0) ⦃p : Platform F⦄ (task : TaskSpec)
    → map target (base_deltas {F = F} task) ≡ (
        (goal_update, "goals.active")
        ∷ (entity_update, "beliefs.task." <> task.task_id <> ".objective")
        ∷ (entity_update, "beliefs.task." <> task.task_id <> ".domain_name")
        ∷ (entity_update, "memory.working")
        ∷ [])
unfolding base_deltas
base_targets F task = refl

risk_targets :
    (F : Type 0) ⦃p : Platform F⦄ (task : TaskSpec)
    → map target (risk_deltas {F = F} task) ≡ (
        if is_risky task.risk_level
        then (self_update, "self_model.last_medium_or_high_risk_task") ∷ []
        else [])
unfolding risk_deltas
risk_targets F task = elim (Bool-cases (is_risky task.risk_level)) [
  | inl risky ↦ rw risky refl
  | inr low ↦ rw low refl
]

module _ {F : Type 0} ⦃p : Platform F⦄ where
  -- Executing the plan of a task that is not redirected, with a registry, returns. Exactly four deltas
  -- of the plan become revisions, one for each: the active goal, the objective and the domain of the
  -- task among the beliefs, and the working memory. The policy, whose decisions on the plan's deltas
  -- the result reports, blocks none, and asks approval for one delta, of the self model, if the risk
  -- is not low, and for none if it is.
  pub plan_from_task-revises :
      (plan_id call_id : String) (task : TaskSpec) (actor : String) (tools : ToolRegistry F)
      (step : Option ReasoningStep) (log : EventLog F)
      → redirects step ≡ false
      → let plan = plan_from_task plan_id call_id task actor (some tools) step in
        Returns
          (λ result.
            (map (λ (r : ModelRevisionEvent F). r.deltas) result.revision_events
              ≡ map (λ d. d ∷ []) (base_deltas task))
            × (map target (base_deltas {F = F} task) ≡ (
                (goal_update, "goals.active")
                ∷ (entity_update, "beliefs.task." <> task.task_id <> ".objective")
                ∷ (entity_update, "beliefs.task." <> task.task_id <> ".domain_name")
                ∷ (entity_update, "memory.working")
                ∷ []))
            × (allowed_count result ≡ 4)
            × (blocked_count result ≡ 0)
            × (requires_approval_count result ≡ (if is_risky task.risk_level then 1 else 0))
            × (result.policy_decisions ≡ map evaluate_delta_policy plan.candidate_deltas)
            × (map target
                  (keep (λ d. (evaluate_delta_policy d).requires_approval) plan.candidate_deltas)
                ≡ (if is_risky task.risk_level
                    then (self_update, "self_model.last_medium_or_high_risk_task") ∷ []
                    else [])))
          ((execute_plan plan (some tools) log).0)
  unfolding allowed_count blocked_count requires_approval_count plan_from_task
  plan_from_task-revises plan_id call_id task actor tools step log onward =
      let plan = plan_from_task plan_id call_id task actor (some tools) step in
      let (result, records, run, audit, calls) = execute_plan-IsAudit plan tools log in
      let (effective, asked, none_blocked, four, one) = task_deltas F task in
      rw (run, audit.decided, audit.revised, onward, effective, asked, none_blocked, four, one)
        (refl, base_targets F task, refl, refl, refl, refl, risk_targets F task)
