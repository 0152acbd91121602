-- ===== src/Examples/Runs.antt =====
-- The execution of a plan on a concrete input.
use cognitive_execution_engi.Prelude.{
  ℕ, ◌≡◌, refl, false, [], ◌∷◌, ◌++◌, map, keep, ◌<>◌, none, some,
}
use cognitive_execution_engi.Prelude.{if◌then◌else◌}
use cognitive_execution_engi.Value
use cognitive_execution_engi.World.Schema.{goal_update, entity_update, self_update}
use cognitive_execution_engi.Revision.{ModelRevisionEvent}
use cognitive_execution_engi.DeltaPolicy.{evaluate_delta_policy}
use cognitive_execution_engi.Task.{is_risky, doc_tokens}
use cognitive_execution_engi.Planner.Tasks.{plan_from_task, base_deltas, query_of}
use cognitive_execution_engi.Planner.Proposals.{plan_from_task-revises, target}
use cognitive_execution_engi.Outcome.{ok, Returns}
use cognitive_execution_engi.Tools.{build_tool_call_event}
use cognitive_execution_engi.EventLog.{EventLog, EventRecord}
use cognitive_execution_engi.Planner.{
  PlanExecutionResult, execute_plan, allowed_count, blocked_count, requires_approval_count,
}
use cognitive_execution_engi.Planner.Audit.{IsAudit, execute_plan-IsAudit}
use cognitive_execution_engi.Planner.Guard.{any_guarded, execute_plan-guard}
use cognitive_execution_engi.Task.Compile.{
  TaskDraws, compile_task, normalized, split_words, split_from, spaced,
}
use cognitive_execution_engi.Task.Compiled.{Compiles, compile_task-Compiles}
use cognitive_execution_engi.Outcome.{raise, value_error}
use cognitive_execution_engi.Prelude.{String, true, all_spaces, space_code}
use cognitive_execution_engi.Examples.{fixed_point, plan, task, tools, commitment_record}

abbrev old_log : EventLog ℕ
old_log = commitment_record ∷ []

execute_plan-IsAudit_example :
    (result : PlanExecutionResult ℕ) × (records : EventLog ℕ) × (execute_plan plan
        (some tools)
        old_log
      ≡ (
        ok result,
        (old_log ++ records) ++ map (λ e. EventRecord.tool_call e) result.tool_call_events,
      ))
    × IsAudit "ws_0" plan.candidate_deltas result.commitment_events result.revision_events
        result.policy_decisions records
    × (result.tool_call_events
        ≡ map (λ call. build_tool_call_event call tools plan.actor) plan.proposed_tool_calls)
execute_plan-IsAudit_example = execute_plan-IsAudit plan tools old_log

execute_plan-guard_example :
    Returns
      (λ result. any_guarded result.revision_events ≡ false)
      ((execute_plan plan (some tools) old_log).0)
execute_plan-guard_example = execute_plan-guard plan tools old_log

plan_from_task-revises_example :
    let plan = plan_from_task "p1" "c1" task "planner" (some tools) none in
    Returns
      (λ result.
        (map (λ (r : ModelRevisionEvent ℕ). r.deltas) result.revision_events
          ≡ map (λ d. d ∷ []) (base_deltas task))
        × (map target (base_deltas {F = ℕ} task) ≡ (
            (goal_update, "goals.active")
            ∷ (entity_update, "beliefs.task." <> task.task_id <> ".objective")
            ∷ (entity_update, "beliefs.task." <> task.task_id <> ".domain_name")
            ∷ (entity_update, "memory.working")
            ∷ []))
        × (allowed_count result ≡ 4)
        × (blocked_count result ≡ 0)
        × (requires_approval_count result ≡ (if is_risky task.risk_level then 1 else 0))
        × (result.policy_decisions ≡ map evaluate_delta_policy plan.candidate_deltas)
        × (map target
              (keep (λ d. (evaluate_delta_policy d).requires_approval) plan.candidate_deltas)
            ≡ (if is_risky task.risk_level
                then (self_update, "self_model.last_medium_or_high_risk_task") ∷ []
                else [])))
      ((execute_plan plan (some tools) old_log).0)
plan_from_task-revises_example =
    plan_from_task-revises "p1" "c1" task "planner" tools none old_log refl

-- the query of the call that is proposed for the task
query_test : query_of doc_tokens "Read docs: opening doors" ≡ "opening doors"
unfolding query_of
query_test = refl

abbrev task_draws : TaskDraws
task_draws = record { task_id = "task_1"; trace_id = "tr_1"; created_at = "2026-01-01" }

abbrev raw : String
raw = "  Write the   docs "

compile_task-Compiles_example :
    (all_spaces raw ≡ true
      → compile_task true task_draws raw "core" old_log
        ≡ (raise (value_error "raw_input cannot be empty"), old_log))
    × (all_spaces raw ≡ false
        → Compiles true task_draws raw old_log (compile_task true task_draws raw "core" old_log))
compile_task-Compiles_example = compile_task-Compiles true task_draws raw "core" old_log

-- the objective of the text
normalized_test : normalized raw ≡ "Write the docs"
unfolding normalized split_words split_from spaced space_code
normalized_test = refl

-- an ideographic space, a no-break space and a next line are blank too
blank_test : all_spaces "\u{3000}\u{a0}\u{85}" ≡ true
unfolding all_spaces space_code
blank_test = refl
