-- ===== src/Flow/Plans.antt =====
-- src/cee_core/tool_observation_flow.py: a plan with its read calls, where no observation is promoted.
use cognitive_execution_engi.Prelude.{
  ℕ, ◌+◌, String, ◌≡◌, refl, ap, sym, ◌∙◌, true, List, [], ◌∷◌, ◌++◌, map, keep, every, every-keep,
  Option, none, some, append_assoc, append-nil, arith,
}
use cognitive_execution_engi.Value.{Platform}
use cognitive_execution_engi.Outcome.{ok}
use cognitive_execution_engi.Exec.{continue}
use cognitive_execution_engi.Tools.{
  ToolRegistry, ToolCallEvent, ToolCallSpec, ToolResultEvent, ToolStatus, succeeded, failed,
  ToolVerdict, allow, deny, requires_approval, verdict_allowed, evaluate_tool_call_policy,
  build_tool_call_event,
}
use cognitive_execution_engi.DeltaPolicy.{DomainContext}
use cognitive_execution_engi.Observation.{observation_from_tool_result, observe_status}
use cognitive_execution_engi.EventLog.{EventLog, EventRecord, revision_events}
use cognitive_execution_engi.EventLog.Queries.{revision_events-append}
use cognitive_execution_engi.DeltaPolicy.{evaluate_delta_policy}
use cognitive_execution_engi.Revision.{ModelRevisionEvent}
use cognitive_execution_engi.Planner.{PlanSpec, takes_effect, allowed_tool_calls}
use cognitive_execution_engi.Planner.Audit.{execute_plan-IsAudit}
use cognitive_execution_engi.Gateway.{ToolHandler, find_handler, run_handler, outside, log}
use cognitive_execution_engi.Runner.{ReadOnlyRunner, run, run_verdict, log_result}
use cognitive_execution_engi.Flow.{
  ToolObservationFlowResult, PlannerToolExecutionResult, after_run, promote_observation,
  continue_flow, run_allowed_tool_call_observation_flow, run_flows, inside,
  execute_plan_with_read_only_tools,
}

module _ {F W : Type 0} where
  -- A run of the runner returns, whatever its handlers do, and logs its result.
  run_verdict-returns :
      (verdict : ToolVerdict) (runner : ReadOnlyRunner F W) (call : ToolCallSpec F)
      (found : Option (ToolHandler F W)) (es : EventLog F) (w : W)
      → find_handler runner.handlers call.tool_name ≡ found
      → (t : ToolResultEvent F) × (w' : W) × (run_verdict verdict runner true call (es, w)
          ≡ (ok t, (es ++ EventRecord.tool_result t ∷ [], w')))
  unfolding run_verdict outside run_handler log_result log
  run_verdict-returns allow runner call none es w h = rw h (_, _, refl)
  run_verdict-returns allow runner call (some handler) es w h = rw h (_, _, refl)
  run_verdict-returns deny runner call found es w h = (_, _, refl)
  run_verdict-returns requires_approval runner call found es w h = (_, _, refl)

module _ {F W : Type 0} ⦃p : Platform F⦄ where
  -- A result without a key to promote to: at most the observation is logged.
  after_run-unpromoted :
      (status : ToolStatus) (plan_id : String) (context : Option DomainContext)
      (e : ToolCallEvent F) (t : ToolResultEvent F) (es : EventLog F) (w : W)
      → t.status ≡ status
      → (flow : ToolObservationFlowResult F) × (records : EventLog F) × (after_run status none
            plan_id context e t
            (es, w)
          ≡ (ok flow, (es ++ records, w)))
        × (flow.tool_call_event ≡ e)
        × (revision_events records ≡ [])
  unfolding after_run observation_from_tool_result promote_observation log revision_events
      observe_status
  after_run-unpromoted failed plan_id context e t es w h =
      (_, [], ap (λ l. (ok _, (l, w))) (sym (append-nil es)), refl, refl)
  after_run-unpromoted succeeded plan_id context e t es w h =
      rw h (_, EventRecord.observation _ ∷ [], refl, refl, refl)

  flow-unpromoted :
      (runner : ReadOnlyRunner F W) (plan_id : String) (context : Option DomainContext)
      (e : ToolCallEvent F) (es : EventLog F) (w : W)
      → verdict_allowed e.decision.verdict ≡ true
      → (flow : ToolObservationFlowResult F) × (records : EventLog F) × (w' : W)
        × (run_allowed_tool_call_observation_flow runner none plan_id context e (es, w)
            ≡ (ok flow, (es ++ records, w')))
        × (flow.tool_call_event ≡ e)
        × (revision_events records ≡ [])
  unfolding run_allowed_tool_call_observation_flow continue_flow run revision_events
  flow-unpromoted runner plan_id context e es w h =
      let (t, w', ran) =
        run_verdict-returns (evaluate_tool_call_policy e.call runner.registry).verdict runner e.call
          _ es w refl in
      let (flow, records, rest, same, none_revised) =
        after_run-unpromoted t.status plan_id context e t (es ++ EventRecord.tool_result t ∷ []) w'
          refl in
      (
        flow,
        EventRecord.tool_result t ∷ records,
        w',
        ap (λ b. continue_flow b runner none plan_id context e (es, w)) h
            ∙ ap (λ r. continue r.0 (λ t. after_run t.status none plan_id context e t) r.1) ran
            ∙ rest
            ∙ ap (λ l. (ok flow, (l, w'))) (append_assoc es _ records),
        same,
        none_revised,
      )

  run_flows-unpromoted :
      (runner : ReadOnlyRunner F W) (plan_ids : ℕ → String) (context : Option DomainContext) (i : ℕ)
      (calls : List (ToolCallEvent F)) (es : EventLog F) (w : W)
      → every (λ e. verdict_allowed e.decision.verdict) calls ≡ true
      → (flows : List (ToolObservationFlowResult F)) × (records : EventLog F) × (w' : W)
        × (run_flows runner [] plan_ids context i calls (es, w) ≡ (ok flows, (es ++ records, w')))
        × (map (λ f. f.tool_call_event) flows ≡ calls)
        × (revision_events records ≡ [])
  unfolding run_flows revision_events
  run_flows-unpromoted runner plan_ids context i [] es w h =
      ([], [], w, ap (λ l. (ok [], (l, w))) (sym (append-nil es)), refl, refl)
  run_flows-unpromoted runner plan_ids context i (e ∷ calls) es w h =
      let (flow, first, w1, ran, same, unrevised) =
        flow-unpromoted runner (plan_ids i) context e es w (ground arith) in
      let (flows, more, w2, rest, all_same, more_unrevised) =
        run_flows-unpromoted runner plan_ids context (i + 1) calls (es ++ first) w1
          (ground arith) in
      (
        flow ∷ flows,
        first ++ more,
        w2,
        rw (ran, rest) (ap (λ l. (ok (flow ∷ flows), (l, w2))) (append_assoc es first more)),
        rw (same, all_same) refl,
        revision_events-append first more ∙ rw (unrevised, more_unrevised) refl,
      )

module _ {F : Type 0} where
  calls_of :
      (tools : ToolRegistry F) (actor : String) (cs : List (ToolCallSpec F))
      → map (λ e. e.call) (map (λ c. build_tool_call_event c tools actor) cs) ≡ cs
  unfolding build_tool_call_event
  calls_of tools actor [] = refl
  calls_of tools actor (c ∷ cs) = ap (λ l. c ∷ l) (calls_of tools actor cs)

  no_revisions :
      (es : List (ToolCallEvent F)) → revision_events (map (λ e. EventRecord.tool_call e) es) ≡ []
  unfolding revision_events
  no_revisions [] = refl
  no_revisions (e ∷ es) = no_revisions es

module _ {F W : Type 0} ⦃p : Platform F⦄ where
  -- A plan without promotions returns, whatever it proposes and whatever the handlers do: the log only
  -- grows, there is one flow for each proposed call that the policy allows, in their order, and none
  -- for the others, and the only new revisions are those that the plan's result reports: one of each
  -- candidate delta that the delta policy lets take effect, in their order.
  pub execute_plan_with_read_only_tools-returns :
      (plan : PlanSpec F) (runner : ReadOnlyRunner F W) (plan_ids : ℕ → String)
      (context : Option DomainContext) (es : EventLog F) (w : W)
      → (result : PlannerToolExecutionResult F) × (records : EventLog F) × (w' : W)
        × (execute_plan_with_read_only_tools plan runner [] plan_ids context (es, w)
            ≡ (ok result, (es ++ records, w')))
        × (map (λ f. f.tool_call_event) result.tool_flow_results
            ≡ allowed_tool_calls result.plan_result)
        × (map (λ e. e.call) result.plan_result.tool_call_events ≡ plan.proposed_tool_calls)
        × (revision_events records ≡ result.plan_result.revision_events)
        × (map (λ (r : ModelRevisionEvent F). r.deltas) (revision_events records)
            ≡ map
                (λ d. d ∷ [])
                (keep (λ d. takes_effect (evaluate_delta_policy d)) plan.candidate_deltas))
  unfolding execute_plan_with_read_only_tools inside allowed_tool_calls
  execute_plan_with_read_only_tools-returns plan runner plan_ids context es w =
      let (result, audited, planned, audit, proposed) =
        execute_plan-IsAudit plan runner.registry es in
      let calls = map (λ e. EventRecord.tool_call e) result.tool_call_events in
      let (flows, records, w', ran, same, unrevised) =
        run_flows-unpromoted runner plan_ids context 0 (allowed_tool_calls result)
          ((es ++ audited) ++ calls) w
          (every-keep (λ (e : ToolCallEvent F). verdict_allowed e.decision.verdict)
            result.tool_call_events) in
      let kept : revision_events (audited ++ (calls ++ records)) ≡ result.revision_events =
        revision_events-append audited (calls ++ records)
        ∙ ap (λ l. revision_events audited ++ l) (revision_events-append calls records)
        ∙ rw (audit.revisions_kept, no_revisions result.tool_call_events, unrevised, append-nil)
            refl in
      let final : PlannerToolExecutionResult F = record {
        plan_result = result;
        tool_flow_results = flows;
      } in
      (
        final,
        audited ++ (calls ++ records),
        w',
        rw (planned, ran)
            (ap (λ l. (ok final, (l, w')))
              (append_assoc (es ++ audited) calls records
                ∙ append_assoc es audited (calls ++ records))),
        same,
        ap (map (λ e. e.call)) proposed
            ∙ calls_of runner.registry plan.actor plan.proposed_tool_calls,
        kept,
        rw kept audit.revised,
      )
