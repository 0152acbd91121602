-- ===== src/Planner/Audit.antt =====
-- src/cee_core/planner.py: what the execution of a plan leaves in the event log.
use cognitive_execution_engi.Prelude.{
  ℕ, ◌+◌, String, ◌≡◌, refl, ap, sym, ◌∙◌, ◌==◌, eq_refl, ◌&&◌, Bool, true, false, List, [], ◌∷◌,
  ◌++◌, map, keep, some, none, append_assoc, append-nil, ◌<>◌, show, if◌then◌else◌,
}
use cognitive_execution_engi.Value.{Platform}
use cognitive_execution_engi.Outcome.{ok, raise, value_error}
use cognitive_execution_engi.Exec.{Exec}
use cognitive_execution_engi.World.Schema.{RevisionDelta}
use cognitive_execution_engi.Commitment.{CommitmentEvent}
use cognitive_execution_engi.Revision.{ModelRevisionEvent}
use cognitive_execution_engi.DeltaPolicy.{DeltaPolicyDecision, evaluate_delta_policy}
use cognitive_execution_engi.Tools.{ToolCallSpec, ToolRegistry, build_tool_call_event}
use cognitive_execution_engi.EventLog.{
  EventLog, EventRecord, append, commitment_events, revision_events,
}
use cognitive_execution_engi.Planner.{
  PlanSpec, PlanExecutionResult, Trail, takes_effect, build_commitment_from_delta,
  build_revision_from_delta, log_revision, round, run_deltas, run_calls, propose_calls,
  execute_plan,
}

module _ {F : Type 0} where
  -- the policy lets the delta take effect
  abbrev pub passes : RevisionDelta F → Bool
  passes delta = takes_effect (evaluate_delta_policy delta)

  -- each revision starts from the state in which the one before resulted, the first one from `prior`
  unfoldable pub is_chain : String → List (ModelRevisionEvent F) → Bool
  is_chain prior [] = true
  is_chain prior (rev ∷ revs) =
      (rev.prior_state_id == prior) && is_chain rev.resulting_state_id revs

  -- The events are an audit of the deltas, and the records hold them: every delta is decided by the
  -- policy and has one commitment, which succeeded exactly if the delta takes effect; the deltas that
  -- take effect, and no others, have a revision with that delta alone, caused by its commitment; and
  -- the revisions form a chain.
  pub record IsAudit (prior : String) (deltas : List (RevisionDelta F))
      (commitments : List (CommitmentEvent F)) (revisions : List (ModelRevisionEvent F))
      (decisions : List DeltaPolicyDecision) (records : EventLog F) : Type 0 where
    pub decided : decisions ≡ map evaluate_delta_policy deltas
    pub successes :
        map (λ (e : CommitmentEvent F). e.success) commitments ≡ map takes_effect decisions
    pub revised :
        map (λ (r : ModelRevisionEvent F). r.deltas) revisions
        ≡ map (λ d. d ∷ []) (keep passes deltas)
    pub caused :
        map (λ (r : ModelRevisionEvent F). r.caused_by_event_id) revisions
        ≡ map
            (λ (e : CommitmentEvent F). e.event_id)
            (keep (λ (e : CommitmentEvent F). e.success) commitments)
    pub chained : is_chain prior revisions ≡ true
    pub commitments_kept : commitment_events records ≡ commitments
    pub revisions_kept : revision_events records ≡ revisions

module _ {F : Type 0} ⦃p : Platform F⦄ where
  -- what a run of the loop gives: an audit, and the records of it behind the old log
  Audited : PlanSpec F → ℕ → String → List (RevisionDelta F) → EventLog F → Type 0
  Audited plan i prior deltas log =
      (trail : Trail F) × (records : EventLog F) × (run_deltas plan i prior deltas log
        ≡ (ok trail, log ++ records))
      × IsAudit prior deltas trail.commitments trail.revisions trail.decisions records

  abbrev commitment_for : PlanSpec F → ℕ → RevisionDelta F → CommitmentEvent F
  commitment_for plan i delta =
      build_commitment_from_delta delta (evaluate_delta_policy delta) plan i

  abbrev revision_for : PlanSpec F → ℕ → String → RevisionDelta F → ModelRevisionEvent F
  revision_for plan i prior delta =
      build_revision_from_delta delta prior ("ws_" <> show (i + 1)) (commitment_for plan i delta)

  -- the revisions that one delta makes
  abbrev made : Bool → ModelRevisionEvent F → List (ModelRevisionEvent F)
  made true rev = rev ∷ []
  made false rev = []

  -- One round of the loop, over any commitment, revision and further rounds.
  round_lem :
      (b : Bool) (ce : CommitmentEvent F) (rev : ModelRevisionEvent F) (d : DeltaPolicyDecision)
      (more : Exec (EventLog F) (Trail F)) (log : EventLog F) (trail : Trail F) (s : EventLog F)
      → more (
          (log ++ EventRecord.commitment ce ∷ []) ++ map (λ r. EventRecord.revision r) (made b rev))
        ≡ (ok trail, s)
      → round b ce rev d more log ≡ (
        ok (record {
          commitments = ce ∷ trail.commitments;
          revisions = made b rev ++ trail.revisions;
          decisions = d ∷ trail.decisions;
        }),
        s,
      )
  unfolding round append log_revision
  round_lem true ce rev d more log trail s run = rw run refl
  round_lem false ce rev d more log trail s run =
      rw (sym (append-nil (log ++ EventRecord.commitment ce ∷ [])), run) refl

  -- The audit of one more delta, in front.
  IsAudit-cons :
      (plan : PlanSpec F) (i : ℕ) (prior : String) (delta : RevisionDelta F)
      (deltas : List (RevisionDelta F)) (b : Bool) (trail : Trail F) (records : EventLog F)
      → passes delta ≡ b
      → IsAudit
          (if b then "ws_" <> show (i + 1) else prior)
          deltas
          trail.commitments
          trail.revisions
          trail.decisions
          records
      → IsAudit prior
          (delta ∷ deltas)
          (commitment_for plan i delta ∷ trail.commitments)
          (made b (revision_for plan i prior delta) ++ trail.revisions)
          (evaluate_delta_policy delta ∷ trail.decisions)
          (EventRecord.commitment (commitment_for plan i delta)
              ∷ map (λ r. EventRecord.revision r) (made b (revision_for plan i prior delta))
            ++ records)
  unfolding build_commitment_from_delta build_revision_from_delta is_chain commitment_events
      revision_events
  IsAudit-cons plan i prior delta deltas true trail records passed audit = record {
    decided = ap (λ ds. evaluate_delta_policy delta ∷ ds) audit.decided;
    successes = ap (λ bs. passes delta ∷ bs) audit.successes;
    revised = rw passed (ap (λ ds. (delta ∷ []) ∷ ds) audit.revised);
    caused = rw passed (ap (λ ids. (commitment_for plan i delta).event_id ∷ ids) audit.caused);
    chained = rw (eq_refl prior) audit.chained;
    commitments_kept = ap (λ es. commitment_for plan i delta ∷ es) audit.commitments_kept;
    revisions_kept = ap (λ es. revision_for plan i prior delta ∷ es) audit.revisions_kept;
  }
  IsAudit-cons plan i prior delta deltas false trail records held audit = record {
    decided = ap (λ ds. evaluate_delta_policy delta ∷ ds) audit.decided;
    successes = ap (λ bs. passes delta ∷ bs) audit.successes;
    revised = rw held audit.revised;
    caused = rw held audit.caused;
    chained = audit.chained;
    commitments_kept = ap (λ es. commitment_for plan i delta ∷ es) audit.commitments_kept;
    revisions_kept = audit.revisions_kept;
  }

  run_deltas-audit :
      (plan : PlanSpec F) (i : ℕ) (prior : String) (deltas : List (RevisionDelta F))
      (log : EventLog F)
      → Audited plan i prior deltas log
  unfolding Audited run_deltas is_chain commitment_events revision_events
  run_deltas-audit plan i prior [] log = (
    record { commitments = []; revisions = []; decisions = [] },
    [],
    rw append-nil refl,
    record {
      decided = refl;
      successes = refl;
      revised = refl;
      caused = refl;
      chained = refl;
      commitments_kept = refl;
      revisions_kept = refl;
    },
  )
  run_deltas-audit plan i prior (delta ∷ deltas) log =
      let b = passes delta in
      let ce = commitment_for plan i delta in
      let rev = revision_for plan i prior delta in
      let next = if b then "ws_" <> show (i + 1) else prior in
      let before =
        (log ++ EventRecord.commitment ce ∷ []) ++ map (λ r. EventRecord.revision r) (made b rev) in
      let (trail, records, run, audit) = run_deltas-audit plan (i + 1) next deltas before in
      (
        record {
          commitments = ce ∷ trail.commitments;
          revisions = made b rev ++ trail.revisions;
          decisions = evaluate_delta_policy delta ∷ trail.decisions;
        },
        EventRecord.commitment ce ∷ map (λ r. EventRecord.revision r) (made b rev) ++ records,
        round_lem b ce rev (evaluate_delta_policy delta) (run_deltas plan (i + 1) next deltas) log
            trail _
            (run
              ∙ ap (λ l. (ok trail, l))
                  (append_assoc (log ++ EventRecord.commitment ce ∷ [])
                      (map (λ r. EventRecord.revision r) (made b rev)) records
                    ∙ append_assoc log (EventRecord.commitment ce ∷ []) _)),
        IsAudit-cons plan i prior delta deltas b trail records refl audit,
      )

module _ {F : Type 0} where
  run_calls_lem :
      (tools : ToolRegistry F) (actor : String) (calls : List (ToolCallSpec F)) (log : EventLog F)
      → let made = map (λ call. build_tool_call_event call tools actor) calls in
        run_calls tools actor calls log ≡ (ok made, log ++ map (λ e. EventRecord.tool_call e) made)
  unfolding run_calls append
  run_calls_lem tools actor [] log = rw append-nil refl
  run_calls_lem tools actor (call ∷ calls) log =
      let e = build_tool_call_event call tools actor in
      rw (run_calls_lem tools actor calls (log ++ EventRecord.tool_call e ∷ [])) (
        ap (λ l. (ok (map (λ c. build_tool_call_event c tools actor) (call ∷ calls)), l))
          (append_assoc log (EventRecord.tool_call e ∷ []) _))

module _ {F : Type 0} ⦃p : Platform F⦄ where
  propose_calls_lem :
      (tools : ToolRegistry F) (actor : String) (calls : List (ToolCallSpec F)) (log : EventLog F)
      → let made = map (λ call. build_tool_call_event call tools actor) calls in
        propose_calls (some tools) actor calls log
        ≡ (ok made, log ++ map (λ e. EventRecord.tool_call e) made)
  unfolding propose_calls
  propose_calls_lem tools actor [] log = rw append-nil refl
  propose_calls_lem tools actor (call ∷ calls) log = run_calls_lem tools actor (call ∷ calls) log

  -- With a tool registry, the execution of a plan returns, and adds to the log, in this order: the
  -- records of an audit of the plan's deltas from state `ws_0`, with the commitments, revisions and
  -- decisions of the result, and one record per proposed tool call, with the registry's verdict.
  pub execute_plan-IsAudit :
      (plan : PlanSpec F) (tools : ToolRegistry F) (log : EventLog F)
      → (result : PlanExecutionResult F) × (records : EventLog F) × (execute_plan plan
            (some tools)
            log
          ≡ (
            ok result,
            (log ++ records) ++ map (λ e. EventRecord.tool_call e) result.tool_call_events,
          ))
        × IsAudit "ws_0" plan.candidate_deltas result.commitment_events result.revision_events
            result.policy_decisions records
        × (result.tool_call_events
            ≡ map (λ call. build_tool_call_event call tools plan.actor) plan.proposed_tool_calls)
  unfolding Audited execute_plan
  execute_plan-IsAudit plan tools log =
      let (trail, records, run, audit) = run_deltas-audit plan 0 "ws_0" plan.candidate_deltas log in
      (
        record {
          plan = plan;
          commitment_events = trail.commitments;
          revision_events = trail.revisions;
          policy_decisions = trail.decisions;
          tool_call_events =
              map (λ call. build_tool_call_event call tools plan.actor) plan.proposed_tool_calls;
        },
        records,
        rw (run, propose_calls_lem tools plan.actor plan.proposed_tool_calls (log ++ records)) refl,
        audit,
        refl,
      )

  -- Without a registry, a plan that proposes a tool call raises a value error, and only after its
  -- deltas: the log has the records of an audit of them, and no record of a tool call.
  execute_plan-no_registry :
      (plan : PlanSpec F) (call : ToolCallSpec F) (calls : List (ToolCallSpec F)) (log : EventLog F)
      → plan.proposed_tool_calls ≡ call ∷ calls
      → (trail : Trail F) × (records : EventLog F) × (execute_plan plan none log ≡ (
        raise (value_error "tool_registry is required when plan has proposed_tool_calls"),
        log ++ records,
      ))
        × IsAudit "ws_0" plan.candidate_deltas trail.commitments trail.revisions trail.decisions
            records
  unfolding Audited execute_plan propose_calls
  execute_plan-no_registry plan call calls log proposed =
      let (trail, records, run, audit) = run_deltas-audit plan 0 "ws_0" plan.candidate_deltas log in
      (trail, records, rw (run, proposed) refl, audit)
