-- ===== src/Flow.antt =====
-- src/cee_core/tool_observation_flow.py: from a read call through its observation to a belief. As in
-- the gateway, the state is the log with the world of the handlers. The generated id of the plan that
-- a promotion is filed under is an argument. The proofs are in `Promotion` and `Plans`.
pub mod Promotion
pub mod Plans
use cognitive_execution_engi.Prelude.{
  ℕ, ◌+◌, String, Bool, true, false, List, [], ◌∷◌, Option, none, some, ◌<>◌, show, length, last?,
}
use cognitive_execution_engi.Value.{Platform}
use cognitive_execution_engi.Outcome.{Outcome, ok, value_error}
use cognitive_execution_engi.Exec.{Exec, return, throw, lift, ◌>>=◌, ◌>>◌}
use cognitive_execution_engi.World.Schema.{RevisionDelta}
use cognitive_execution_engi.Commitment.{CommitmentEvent}
use cognitive_execution_engi.Revision.{ModelRevisionEvent}
use cognitive_execution_engi.Tools.{
  ToolCallEvent, ToolCallSpec, ToolResultEvent, ToolStatus, succeeded, failed,
  build_tool_call_event, verdict_allowed, verdict_text,
}
use cognitive_execution_engi.DeltaPolicy.{
  DeltaPolicyDecision, DomainContext, evaluate_delta_policy, evaluate_delta_policy_in_domain,
}
use cognitive_execution_engi.Observation.{
  ObservationCandidate, observation_from_tool_result, build_observation_event,
  promote_observation_to_delta,
}
use cognitive_execution_engi.EventLog.{EventLog, EventRecord, revision_events}
use cognitive_execution_engi.Planner.{
  PlanSpec, PlanExecutionResult, execute_plan, allowed_tool_calls, takes_effect,
  build_commitment_from_delta, build_revision_from_delta,
}
use cognitive_execution_engi.Gateway.{log, failure}
use cognitive_execution_engi.Gateway.Run.{promotion_key}
use cognitive_execution_engi.Runner.{ReadOnlyRunner, run}

pub record ToolObservationFlowResult (F : Type 0) : Type 0 where
  pub tool_call_event : ToolCallEvent F
  pub tool_result_event : ToolResultEvent F
  pub observation : Option (ObservationCandidate F)
  pub promotion_delta : Option (RevisionDelta F)

pub record PlannerToolExecutionResult (F : Type 0) : Type 0 where
  pub plan_result : PlanExecutionResult F
  pub tool_flow_results : List (ToolObservationFlowResult F)

-- a flow that ends without an observation
abbrev pub unobserved :
    {F : Type 0} → ToolCallEvent F → ToolResultEvent F → ToolObservationFlowResult F
unobserved e t = record {
  tool_call_event = e;
  tool_result_event = t;
  observation = none;
  promotion_delta = none;
}

module _ {F : Type 0} where
  -- `_evaluate_promotion_decision`
  unfoldable pub evaluate_promotion_decision :
      RevisionDelta F → Option DomainContext → DeltaPolicyDecision
  evaluate_promotion_decision delta none = evaluate_delta_policy delta
  evaluate_promotion_decision delta (some context) = evaluate_delta_policy_in_domain delta context

  -- `PlanSpec(objective="promotion", candidate_deltas=(delta,))`
  abbrev pub dummy_plan : String → RevisionDelta F → PlanSpec F
  dummy_plan plan_id delta = record {
    objective = "promotion";
    candidate_deltas = delta ∷ [];
    proposed_tool_calls = [];
    plan_id = plan_id;
    actor = "planner";
  }

  -- the state in which the last revision of the log resulted
  unfoldable pub current_state : List (ModelRevisionEvent F) → String
  current_state revisions = elim (last? revisions) [
    | none ↦ "ws_0"
    | some rev ↦ rev.resulting_state_id
  ]

module _ {F : Type 0} ⦃p : Platform F⦄ where
  -- the commitment on a promoted delta
  unfoldable pub promotion_commitment :
      String → Option DomainContext → RevisionDelta F → CommitmentEvent F
  unfolding build_commitment_from_delta evaluate_promotion_decision
  promotion_commitment plan_id context delta =
      build_commitment_from_delta delta (evaluate_promotion_decision delta context)
        (dummy_plan plan_id delta) 0

  -- the revision that a promotion adds behind the given ones
  unfoldable pub next_revision :
      List (ModelRevisionEvent F) → RevisionDelta F → CommitmentEvent F → ModelRevisionEvent F
  unfolding current_state build_revision_from_delta
  next_revision revisions delta ce =
      build_revision_from_delta delta (current_state revisions)
        ("ws_" <> show (length revisions + 1)) ce

module _ {F W : Type 0} ⦃p : Platform F⦄ where
  -- a promotion that takes effect is logged as a revision
  unfoldable pub log_next_revision :
      Bool → RevisionDelta F → CommitmentEvent F → Exec (EventLog F × W) (Unit {0})
  unfolding log next_revision revision_events
  log_next_revision false delta ce = return tt
  log_next_revision true delta ce =
      λ s. log (EventRecord.revision (next_revision (revision_events s.0) delta ce)) s

  -- the promotion of the observation, if a key is given
  unfoldable pub promote_observation :
      Option String
      → String
      → Option DomainContext
      → ObservationCandidate F
      → Exec (EventLog F × W) (Option (RevisionDelta F))
  unfolding log log_next_revision evaluate_promotion_decision promote_observation_to_delta
  promote_observation none plan_id context observation = return none
  promote_observation (some key) plan_id context observation = do
    delta ← lift (promote_observation_to_delta observation key)
    let ce = promotion_commitment plan_id context delta
    log (EventRecord.commitment ce)
    log_next_revision (takes_effect (evaluate_promotion_decision delta context)) delta ce
    return (some delta)

  -- the branches on the status of the result
  unfoldable pub after_run :
      ToolStatus
      → Option String
      → String
      → Option DomainContext
      → ToolCallEvent F
      → ToolResultEvent F
      → Exec (EventLog F × W) (ToolObservationFlowResult F)
  unfolding log promote_observation observation_from_tool_result
  after_run failed key plan_id context e t = return (unobserved e t)
  after_run succeeded key plan_id context e t = do
    observation ← lift (observation_from_tool_result t)
    log (EventRecord.observation (build_observation_event observation "observation_boundary"))
    delta ← promote_observation key plan_id context observation
    return (record {
      tool_call_event = e;
      tool_result_event = t;
      observation = some observation;
      promotion_delta = delta;
    })

  unfoldable pub continue_flow :
      Bool
      → ReadOnlyRunner F W
      → Option String
      → String
      → Option DomainContext
      → ToolCallEvent F
      → Exec (EventLog F × W) (ToolObservationFlowResult F)
  unfolding run after_run
  continue_flow false runner key plan_id context e =
      throw (value_error "tool_call_event must be allowed before execution")
  continue_flow true runner key plan_id context e = do
    t ← run runner true e.call
    after_run t.status key plan_id context e t

  unfoldable pub run_allowed_tool_call_observation_flow :
      ReadOnlyRunner F W
      → Option String
      → String
      → Option DomainContext
      → ToolCallEvent F
      → Exec (EventLog F × W) (ToolObservationFlowResult F)
  unfolding continue_flow
  run_allowed_tool_call_observation_flow runner key plan_id context e =
      continue_flow (verdict_allowed e.decision.verdict) runner key plan_id context e

  -- the tests of `run_read_only_tool_observation_flow` on the decision
  unfoldable pub flow_of_decision :
      Bool
      → ReadOnlyRunner F W
      → Option String
      → String
      → Option DomainContext
      → ToolCallEvent F
      → Exec (EventLog F × W) (ToolObservationFlowResult F)
  unfolding log failure verdict_text run_allowed_tool_call_observation_flow
  flow_of_decision false runner key plan_id context e = do
    let t = failure e.call ("tool policy blocked execution: " <> verdict_text e.decision.verdict)
    log (EventRecord.tool_result t)
    return (unobserved e t)
  flow_of_decision true runner key plan_id context e =
      run_allowed_tool_call_observation_flow runner key plan_id context e

  unfoldable pub run_read_only_tool_observation_flow :
      ReadOnlyRunner F W
      → Option String
      → String
      → Option DomainContext
      → ToolCallSpec F
      → Exec (EventLog F × W) (ToolObservationFlowResult F)
  unfolding log flow_of_decision
  run_read_only_tool_observation_flow runner key plan_id context call = do
    let e = build_tool_call_event call runner.registry "tool_policy"
    log (EventRecord.tool_call e)
    flow_of_decision (verdict_allowed e.decision.verdict) runner key plan_id context e

  -- the loop over the allowed calls, with the plan ids by the number of the call
  unfoldable pub run_flows :
      ReadOnlyRunner F W
      → List (String × String)
      → (ℕ → String)
      → Option DomainContext
      → ℕ
      → List (ToolCallEvent F)
      → Exec (EventLog F × W) (List (ToolObservationFlowResult F))
  unfolding run_allowed_tool_call_observation_flow promotion_key
  run_flows runner keys plan_ids context i [] = return []
  run_flows runner keys plan_ids context i (e ∷ es) = do
    flow ←
        run_allowed_tool_call_observation_flow runner (promotion_key keys e.call.call_id)
          (plan_ids i) context e
    rest ← run_flows runner keys plan_ids context (i + 1) es
    return (flow ∷ rest)

  -- an action on the log alone
  unfoldable pub inside : {A : Type 0} → Exec (EventLog F) A → Exec (EventLog F × W) A
  inside m (es, w) = let (r, es') = m es in (r, (es', w))

  unfoldable pub execute_plan_with_read_only_tools :
      PlanSpec F
      → ReadOnlyRunner F W
      → List (String × String)
      → (ℕ → String)
      → Option DomainContext
      → Exec (EventLog F × W) (PlannerToolExecutionResult F)
  unfolding inside execute_plan run_flows allowed_tool_calls
  execute_plan_with_read_only_tools plan runner keys plan_ids context = do
    result ← inside (execute_plan plan (some runner.registry))
    flows ← run_flows runner keys plan_ids context 0 (allowed_tool_calls result)
    return (record { plan_result = result; tool_flow_results = flows })
