-- ===== src/Examples/Flows.antt =====
-- The flow of read calls on concrete inputs: the world counts the runs of a handler.
use cognitive_execution_engi.Prelude.{
  keep, ℕ, ◌+◌, ◌<>◌, ◌≡◌, refl, [], ◌∷◌, ◌++◌, map, none, some, show, length, all_spaces,
}
use cognitive_execution_engi.Value
use cognitive_execution_engi.Outcome.{ok}
use cognitive_execution_engi.World.Schema.{RevisionDelta, entity_update}
use cognitive_execution_engi.Commitment.{CommitmentEvent}
use cognitive_execution_engi.Revision.{ModelRevisionEvent}
use cognitive_execution_engi.DeltaPolicy.{DomainContext, evaluate_delta_policy}
use cognitive_execution_engi.Tools.{
  ToolResultEvent, failed, get, evaluate_tool_call_policy, build_tool_call_event,
}
use cognitive_execution_engi.Observation.{ObservationCandidate, build_observation_event}
use cognitive_execution_engi.EventLog.{EventLog, EventRecord, revision_events}
use cognitive_execution_engi.Planner.{allowed_tool_calls, takes_effect}
use cognitive_execution_engi.Gateway.{find_handler, result_of}
use cognitive_execution_engi.Runner.{ReadOnlyRunner}
use cognitive_execution_engi.Flow.{
  PlannerToolExecutionResult, unobserved, current_state, run_read_only_tool_observation_flow,
  execute_plan_with_read_only_tools,
}
use cognitive_execution_engi.Flow.Promotion.{
  logged, beliefs_open, run_read_only_tool_observation_flow-blocked,
  run_read_only_tool_observation_flow-promoted,
}
use cognitive_execution_engi.Flow.Plans.{execute_plan_with_read_only_tools-returns}
use cognitive_execution_engi.Examples.{
  fixed_point, tools, counting, call_of, commitment_record, plan,
}

abbrev old_log : EventLog ℕ
old_log = commitment_record ∷ []

abbrev runner : ReadOnlyRunner ℕ ℕ
runner = record { registry = tools; handlers = ("read_docs", counting) ∷ [] }

-- a domain that asks approval for revised beliefs
abbrev guarded : DomainContext
guarded = record {
  domain_name = "lab";
  plugin_pack =
      some
        (record { denied_patch_sections = []; approval_required_patch_sections = "beliefs" ∷ [] });
}

run_read_only_tool_observation_flow-blocked_example :
    let e = build_tool_call_event (call_of "write_file") runner.registry "tool_policy" in
    (t : ToolResultEvent ℕ) × (run_read_only_tool_observation_flow runner
        (some "door")
        "p1"
        none
        (call_of "write_file")
        (old_log, 7)
      ≡ (
        ok (unobserved e t),
        (old_log ++ EventRecord.tool_call e ∷ EventRecord.tool_result t ∷ [], 7),
      ))
    × (t.status ≡ failed)
unfolding evaluate_tool_call_policy get
run_read_only_tool_observation_flow-blocked_example =
    run_read_only_tool_observation_flow-blocked runner (some "door") "p1" none
      (call_of "write_file") old_log 7 (λ h. cc)

run_read_only_tool_observation_flow-promoted_example :
    let call = call_of "read_docs" in
    let e = build_tool_call_event call runner.registry "tool_policy" in
    let t = result_of call (ok (Value.str "text")) in
    (o : ObservationCandidate ℕ) × (delta : RevisionDelta ℕ) × (ce : CommitmentEvent ℕ)
    × (rev : ModelRevisionEvent ℕ) × (run_read_only_tool_observation_flow runner
          (some "door")
          "p1"
          (some guarded)
          call
          (old_log, 7)
        ≡ (
          ok (record {
            tool_call_event = e;
            tool_result_event = t;
            observation = some o;
            promotion_delta = some delta;
          }),
          (
            old_log
                ++ EventRecord.tool_call e
                  ∷ EventRecord.tool_result t
                  ∷ EventRecord.observation (build_observation_event o "observation_boundary")
                  ∷ EventRecord.commitment ce
                  ∷ logged (beliefs_open (some guarded)) rev,
            8,
          ),
        ))
    × (delta.target_ref ≡ "beliefs." <> "door")
    × (delta.target_kind ≡ entity_update)
    × (ce.action_summary ≡ "entity_update" <> " " <> "beliefs." <> "door")
    × (ce.event_id ≡ "ce-pl-" <> "p1" <> "-" <> show 0)
    × (ce.success ≡ beliefs_open (some guarded))
    × (rev.caused_by_event_id ≡ ce.event_id)
    × (rev.deltas ≡ delta ∷ [])
    × (rev.prior_state_id ≡ current_state (revision_events old_log))
    × (rev.resulting_state_id ≡ "ws_" <> show (length (revision_events old_log) + 1))
unfolding evaluate_tool_call_policy get find_handler all_spaces
run_read_only_tool_observation_flow-promoted_example =
    run_read_only_tool_observation_flow-promoted runner "door" "p1" (some guarded)
      (call_of "read_docs") counting (Value.str "text") old_log 7 8 refl refl refl refl

execute_plan_with_read_only_tools-returns_example :
    (result : PlannerToolExecutionResult ℕ) × (records : EventLog ℕ) × (w' : ℕ)
    × (execute_plan_with_read_only_tools plan runner [] (λ i. "p" <> show i) none (old_log, 7)
        ≡ (ok result, (old_log ++ records, w')))
    × (map (λ f. f.tool_call_event) result.tool_flow_results
        ≡ allowed_tool_calls result.plan_result)
    × (map (λ e. e.call) result.plan_result.tool_call_events ≡ plan.proposed_tool_calls)
    × (revision_events records ≡ result.plan_result.revision_events)
    × (map (λ (r : ModelRevisionEvent ℕ). r.deltas) (revision_events records)
        ≡ map
            (λ d. d ∷ [])
            (keep (λ d. takes_effect (evaluate_delta_policy d)) plan.candidate_deltas))
execute_plan_with_read_only_tools-returns_example =
    execute_plan_with_read_only_tools-returns plan runner (λ i. "p" <> show i) none old_log 7
