-- ===== src/Planner.antt =====
-- src/cee_core/planner.py: plans, and their execution against the event log. The delta policy is in
-- `DeltaPolicy`, the plan of a task in `Tasks`; the proofs are in `Audit`, `Guard` and
-- `Proposals`.
pub mod Tasks
pub mod Audit
pub mod Guard
pub mod Proposals
use cognitive_execution_engi.Prelude.{
  ℕ, ◌+◌, String, Bool, true, false, not, ◌&&◌, List, [], ◌∷◌, Option, none, some, ◌<>◌, show,
  count_if, keep, ◌++◌, if◌then◌else◌, truthy,
}
use cognitive_execution_engi.Value.{Platform}
use cognitive_execution_engi.Outcome.{value_error}
use cognitive_execution_engi.Exec.{Exec, return, throw, ◌>>=◌, ◌>>◌}
use cognitive_execution_engi.World.Schema.{
  RevisionDelta, RevisionTargetKind, self_update, goal_update, target_text,
}
use cognitive_execution_engi.Commitment.{CommitmentEvent, blank}
use cognitive_execution_engi.Revision.{
  ModelRevisionEvent, RevisionKind, expansion, recalibration, confirmation,
}
use cognitive_execution_engi.DeltaPolicy.{DeltaPolicyDecision, evaluate_delta_policy}
use cognitive_execution_engi.Tools.{
  ToolCallSpec, ToolCallEvent, ToolRegistry, build_tool_call_event, verdict_allowed,
  verdict_blocked,
}
use cognitive_execution_engi.EventLog.{EventLog, EventRecord, append}

pub record PlanSpec (F : Type 0) : Type 0 where
  pub objective : String
  pub candidate_deltas : List (RevisionDelta F)
  pub proposed_tool_calls : List (ToolCallSpec F)
  pub plan_id : String
  pub actor : String

pub record PlanExecutionResult (F : Type 0) : Type 0 where
  pub plan : PlanSpec F
  pub commitment_events : List (CommitmentEvent F)
  pub revision_events : List (ModelRevisionEvent F)
  pub policy_decisions : List DeltaPolicyDecision
  pub tool_call_events : List (ToolCallEvent F)

-- `decision.allowed and not decision.requires_approval`
abbrev pub takes_effect : DeltaPolicyDecision → Bool
takes_effect d = d.allowed && not d.requires_approval

module _ {F : Type 0} (result : PlanExecutionResult F) where
  unfoldable pub allowed_count : ℕ
  allowed_count = count_if takes_effect result.policy_decisions

  unfoldable pub blocked_count : ℕ
  blocked_count = count_if (λ d. not d.allowed && not d.requires_approval) result.policy_decisions

  unfoldable pub requires_approval_count : ℕ
  requires_approval_count = count_if (λ d. d.requires_approval) result.policy_decisions

  unfoldable pub allowed_tool_calls : List (ToolCallEvent F)
  allowed_tool_calls = keep (λ e. verdict_allowed e.decision.verdict) result.tool_call_events

  unfoldable pub blocked_tool_calls : List (ToolCallEvent F)
  blocked_tool_calls = keep (λ e. verdict_blocked e.decision.verdict) result.tool_call_events

revision_kind : RevisionTargetKind → RevisionKind
revision_kind self_update = recalibration
revision_kind goal_update = confirmation
revision_kind _ = expansion

-- what the loop over the deltas has made
pub record Trail (F : Type 0) : Type 0 where
  pub commitments : List (CommitmentEvent F)
  pub revisions : List (ModelRevisionEvent F)
  pub decisions : List DeltaPolicyDecision

module _ {F : Type 0} ⦃p : Platform F⦄ where
  -- `_build_commitment_from_delta`
  unfoldable pub build_commitment_from_delta :
      RevisionDelta F → DeltaPolicyDecision → PlanSpec F → ℕ → CommitmentEvent F
  unfolding target_text
  build_commitment_from_delta delta decision plan index =
      record (blank ("ce-pl-" <> plan.plan_id <> "-" <> show index) "" decision.commitment_kind
        ("plan:" <> plan.plan_id <> ":" <> plan.objective)) {
          action_summary = target_text delta.target_kind <> " " <> delta.target_ref;
          success = takes_effect decision;
          reversibility = decision.reversibility;
          requires_approval = decision.requires_approval;
        }

  -- `_build_revision_from_delta`; the plan is not read
  unfoldable pub build_revision_from_delta :
      RevisionDelta F → String → String → CommitmentEvent F → ModelRevisionEvent F
  unfolding revision_kind target_text
  build_revision_from_delta delta prior resulting commitment = record {
    revision_id = "rev-" <> commitment.event_id;
    prior_state_id = prior;
    caused_by_event_id = commitment.event_id;
    revision_kind = revision_kind delta.target_kind;
    deltas = delta ∷ [];
    discarded_hypothesis_ids = [];
    strengthened_hypothesis_ids = [];
    new_anchor_fact_summaries = [];
    resulting_state_id = resulting;
    revision_summary =
        if truthy delta.justification
        then delta.justification
        else "Delta: " <> target_text delta.target_kind <> " " <> delta.target_ref;
  }

  -- the revision is logged if the delta takes effect
  unfoldable pub log_revision :
      Bool → ModelRevisionEvent F → Exec (EventLog F) (List (ModelRevisionEvent F))
  unfolding append
  log_revision true rev = do append (EventRecord.revision rev); return (rev ∷ [])
  log_revision false rev = return []

  -- one round of the loop, with the rounds that follow
  unfoldable pub round :
      Bool
      → CommitmentEvent F
      → ModelRevisionEvent F
      → DeltaPolicyDecision
      → Exec (EventLog F) (Trail F)
      → Exec (EventLog F) (Trail F)
  unfolding append log_revision
  round effective ce rev decision more = do
    append (EventRecord.commitment ce)
    revs ← log_revision effective rev
    rest ← more
    return (record {
      commitments = ce ∷ rest.commitments;
      revisions = revs ++ rest.revisions;
      decisions = decision ∷ rest.decisions;
    })

  -- the loop over the deltas, at the index `i`
  unfoldable pub run_deltas :
      PlanSpec F → ℕ → String → List (RevisionDelta F) → Exec (EventLog F) (Trail F)
  unfolding round build_commitment_from_delta build_revision_from_delta
  run_deltas plan i prior [] = return (record { commitments = []; revisions = []; decisions = [] })
  run_deltas plan i prior (delta ∷ deltas) =
      let decision = evaluate_delta_policy delta in
      let ce = build_commitment_from_delta delta decision plan i in
      let resulting = "ws_" <> show (i + 1) in
      round (takes_effect decision) ce (build_revision_from_delta delta prior resulting ce) decision
        (run_deltas plan (i + 1) (if takes_effect decision then resulting else prior) deltas)

module _ {F : Type 0} where
  -- the loop over the proposed calls
  unfoldable pub run_calls :
      ToolRegistry F → String → List (ToolCallSpec F) → Exec (EventLog F) (List (ToolCallEvent F))
  unfolding append
  run_calls tools actor [] = return []
  run_calls tools actor (call ∷ calls) = do
    let e = build_tool_call_event call tools actor
    append (EventRecord.tool_call e)
    rest ← run_calls tools actor calls
    return (e ∷ rest)

  unfoldable pub propose_calls :
      Option (ToolRegistry F)
      → String
      → List (ToolCallSpec F)
      → Exec (EventLog F) (List (ToolCallEvent F))
  unfolding run_calls
  propose_calls tools actor [] = return []
  propose_calls none actor (call ∷ calls) =
      throw (value_error "tool_registry is required when plan has proposed_tool_calls")
  propose_calls (some tools) actor (call ∷ calls) = run_calls tools actor (call ∷ calls)

module _ {F : Type 0} ⦃p : Platform F⦄ where
  unfoldable pub execute_plan :
      PlanSpec F → Option (ToolRegistry F) → Exec (EventLog F) (PlanExecutionResult F)
  unfolding run_deltas propose_calls
  execute_plan plan tools = do
    trail ← run_deltas plan 0 "ws_0" plan.candidate_deltas
    calls ← propose_calls tools plan.actor plan.proposed_tool_calls
    return (record {
      plan = plan;
      commitment_events = trail.commitments;
      revision_events = trail.revisions;
      policy_decisions = trail.decisions;
      tool_call_events = calls;
    })
