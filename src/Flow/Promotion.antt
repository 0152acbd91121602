-- ===== src/Flow/Promotion.antt =====
-- src/cee_core/tool_observation_flow.py: the records that one flow leaves.
use cognitive_execution_engi.Prelude.{
  String, ◌≡◌, refl, ap, ◌∙◌, ◌&&◌, Bool, true, false, not, List, [], ◌∷◌, ◌++◌, Option, none, some,
  contains, all_spaces, append_assoc, append-nil, length, arith, strip_prefix, ◌<>◌, show, ◌+◌,
  strip_prefix-diverge, diverge,
}
use cognitive_execution_engi.Value.{Platform, Value}
use cognitive_execution_engi.Outcome.{ok}
use cognitive_execution_engi.Exec.{continue}
use cognitive_execution_engi.World.Schema.{RevisionDelta, entity_update, target_text}
use cognitive_execution_engi.Commitment.{CommitmentEvent}
use cognitive_execution_engi.Revision.{ModelRevisionEvent}
use cognitive_execution_engi.Tools.{
  ToolCallEvent, ToolCallSpec, ToolResultEvent, ToolVerdict, verdict_allowed, succeeded, allow,
  deny, requires_approval, failed, evaluate_tool_call_policy, build_tool_call_event,
}
use cognitive_execution_engi.DeltaPolicy.{DomainContext, infer_section_from_delta}
use cognitive_execution_engi.DeltaPolicy.Overlay.{evaluate_delta_policy_in_domain-tightens}
use cognitive_execution_engi.EventLog.Queries.{revision_events-append}
use cognitive_execution_engi.Observation.{
  ObservationEvent, build_belief_payload, belief_of, promote_observation_to_belief_delta,
  ObservationCandidate, observation_from_tool_result, observe_status, build_observation_event,
  promote_observation_to_delta,
}
use cognitive_execution_engi.EventLog.{EventLog, EventRecord, revision_events}
use cognitive_execution_engi.Planner.{
  takes_effect, build_revision_from_delta, build_commitment_from_delta,
}
use cognitive_execution_engi.Gateway.{ToolHandler, find_handler, log, failure, result_of}
use cognitive_execution_engi.Gateway.Records.{observed, belief_passes, returned, four}
use cognitive_execution_engi.Runner.{ReadOnlyRunner}
use cognitive_execution_engi.Runner.ReadOnly.{run-allowed}
use cognitive_execution_engi.Flow.{
  unobserved, evaluate_promotion_decision, promotion_commitment, next_revision, current_state,
  log_next_revision, promote_observation, after_run, continue_flow,
  run_allowed_tool_call_observation_flow, flow_of_decision, run_read_only_tool_observation_flow,
}

-- A belief may be revised: the domain, if there is one with a pack, neither denies the section
-- `beliefs` nor asks approval for it.
abbrev pub beliefs_open : Option DomainContext → Bool
beliefs_open none = true
beliefs_open (some context) = elim context.plugin_pack [
  | none ↦ true
  | some pack ↦
      not (contains "beliefs" pack.denied_patch_sections)
      && not (contains "beliefs" pack.approval_required_patch_sections)
]

-- Four records appended one by one, and a rest.
four_and :
    {A B W : Type 0} (r : B) (w : W) (rest es : List A) (a b c d : A)
    → ◌≡◌ {A = B × (List A × W)}
        (r, (((((es ++ a ∷ []) ++ b ∷ []) ++ c ∷ []) ++ d ∷ []) ++ rest, w))
        (r, (es ++ a ∷ b ∷ c ∷ d ∷ rest, w))
four_and r w rest es a b c d =
    ap (λ l. (r, (l, w)))
      (ap (λ l. l ++ rest) (ap (λ x. x.1.0) (four r w es a b c d))
        ∙ append_assoc es (a ∷ b ∷ c ∷ d ∷ []) rest)

module _ {F : Type 0} where
  -- the delta updates the belief of the key
  record IsBelief (key : String) (delta : RevisionDelta F) : Type 0 where
    at_key : delta.target_ref ≡ "beliefs." <> key
    updates : delta.target_kind ≡ entity_update

  section_of_belief :
      (delta : RevisionDelta F) (key : String)
      → IsBelief key delta
      → infer_section_from_delta delta ≡ "beliefs"
  unfolding infer_section_from_delta diverge
  section_of_belief delta key b = ground (
    arith,
    b.updates,
    ap (strip_prefix "memory.") b.at_key ∙ strip_prefix-diverge "memory." "beliefs." key refl,
    ap (strip_prefix "domain.") b.at_key ∙ strip_prefix-diverge "domain." "beliefs." key refl,
  )

  promotion-beliefs_open :
      (delta : RevisionDelta F) (key : String) (context : Option DomainContext)
      → IsBelief key delta
      → takes_effect (evaluate_promotion_decision delta context) ≡ beliefs_open context
  unfolding evaluate_promotion_decision
  promotion-beliefs_open delta key none b = belief_passes delta key b.at_key b.updates
  promotion-beliefs_open delta key (some context) b = ground (
    arith,
    belief_passes delta key b.at_key b.updates,
    section_of_belief delta key b,
    evaluate_delta_policy_in_domain-tightens delta context,
  )

  -- the revisions that a promotion logs
  abbrev pub logged : Bool → ModelRevisionEvent F → EventLog F
  logged true rev = EventRecord.revision rev ∷ []
  logged false rev = []

  revisions-call :
      (es : EventLog F) (e : ToolCallEvent F) (t : ToolResultEvent F)
      → revision_events ((es ++ EventRecord.tool_call e ∷ []) ++ EventRecord.tool_result t ∷ [])
        ≡ revision_events es
  unfolding revision_events
  revisions-call es e t =
      ap (λ l. revision_events l) (append_assoc es _ _)
      ∙ revision_events-append es _
      ∙ append-nil (revision_events es)

  -- Records that are no revisions leave the revisions as they are.
  revisions-two :
      (es : EventLog F) (o : ObservationEvent F) (c : CommitmentEvent F)
      → revision_events ((es ++ EventRecord.observation o ∷ []) ++ EventRecord.commitment c ∷ [])
        ≡ revision_events es
  unfolding revision_events
  revisions-two es o c =
      ap (λ l. revision_events l) (append_assoc es _ _)
      ∙ revision_events-append es _
      ∙ append-nil (revision_events es)

module _ {F : Type 0} ⦃p : Platform F⦄ where
  -- A key that is not blank gives a delta on its belief.
  promote_observation_to_delta-IsBelief :
      (o : ObservationCandidate F) (key : String)
      → all_spaces key ≡ false
      → (delta : RevisionDelta F) × (promote_observation_to_delta o key ≡ ok delta)
        × IsBelief key delta
  unfolding promote_observation_to_delta promote_observation_to_belief_delta build_belief_payload
      belief_of
  promote_observation_to_delta-IsBelief o key filled =
      returned _ (promote_observation_to_delta o key)
        (rw filled (record { at_key = refl; updates = refl }))

module _ {F W : Type 0} ⦃p : Platform F⦄ where
  log_next_revision_lem :
      (b : Bool) (delta : RevisionDelta F) (ce : CommitmentEvent F)
      (revs : List (ModelRevisionEvent F)) (es : EventLog F) (w : W)
      → revision_events es ≡ revs
      → log_next_revision b delta ce (es, w)
        ≡ (ok tt, (es ++ logged b (next_revision revs delta ce), w))
  unfolding log_next_revision log
  log_next_revision_lem true delta ce revs es w h = rw h refl
  log_next_revision_lem false delta ce revs es w h = rw append-nil refl

  decision-blocked :
      (verdict : ToolVerdict) (runner : ReadOnlyRunner F W) (key : Option String) (plan_id : String)
      (context : Option DomainContext) (e : ToolCallEvent F) (es : EventLog F) (w : W)
      → e.decision.verdict ≡ verdict
      → ¬ (verdict ≡ allow)
      → (t : ToolResultEvent F) × (flow_of_decision
            (verdict_allowed e.decision.verdict)
            runner
            key
            plan_id
            context
            e
            (es, w)
          ≡ (ok (unobserved e t), (es ++ EventRecord.tool_result t ∷ [], w)))
        × (t.status ≡ failed)
  unfolding flow_of_decision log failure
  decision-blocked allow runner key plan_id context e es w v h = absurd (h refl)
  decision-blocked deny runner key plan_id context e es w v h = rw v (_, refl, refl)
  decision-blocked requires_approval runner key plan_id context e es w v h = rw v (_, refl, refl)

  after_run-promoted :
      (key plan_id : String) (context : Option DomainContext) (e : ToolCallEvent F)
      (call : ToolCallSpec F) (v : Value F) (delta : RevisionDelta F) (es : EventLog F) (w : W)
      (revs : List (ModelRevisionEvent F))
      → promote_observation_to_delta (observed call v) key ≡ ok delta
      → IsBelief key delta
      → revision_events es ≡ revs
      → let ce = promotion_commitment plan_id context delta in
        after_run succeeded (some key) plan_id context e (result_of call (ok v)) (es, w) ≡ (
          ok (record {
            tool_call_event = e;
            tool_result_event = result_of call (ok v);
            observation = some (observed call v);
            promotion_delta = some delta;
          }),
          (
            ((es
                    ++ EventRecord.observation
                        (build_observation_event (observed call v) "observation_boundary")
                      ∷ [])
                  ++ EventRecord.commitment ce ∷ [])
                ++ logged (beliefs_open context) (next_revision revs delta ce),
            w,
          ),
        )
  unfolding after_run observation_from_tool_result observe_status result_of promote_observation log
  after_run-promoted key plan_id context e call v delta es w revs made belief old =
      rw
        (
          made,
          promotion-beliefs_open delta key context belief,
          log_next_revision_lem (beliefs_open context) delta
              (promotion_commitment plan_id context delta) revs
              ((es ++ _ ∷ [])
                ++ EventRecord.commitment (promotion_commitment plan_id context delta) ∷ [])
              w
              (revisions-two es (build_observation_event (observed call v) "observation_boundary")
                  (promotion_commitment plan_id context delta)
                ∙ old),
        )
        refl

  continue-promoted :
      (runner : ReadOnlyRunner F W) (key plan_id : String) (context : Option DomainContext)
      (e : ToolCallEvent F) (handler : ToolHandler F W) (v : Value F) (delta : RevisionDelta F)
      (es : EventLog F) (w w' : W) (revs : List (ModelRevisionEvent F))
      → (evaluate_tool_call_policy e.call runner.registry).verdict ≡ allow
      → find_handler runner.handlers e.call.tool_name ≡ some handler
      → handler e.call.arguments w ≡ (ok v, w')
      → promote_observation_to_delta (observed e.call v) key ≡ ok delta
      → IsBelief key delta
      → revision_events (es ++ EventRecord.tool_result (result_of e.call (ok v)) ∷ []) ≡ revs
      → let ce = promotion_commitment plan_id context delta in
        continue_flow true runner (some key) plan_id context e (es, w) ≡ (
          ok (record {
            tool_call_event = e;
            tool_result_event = result_of e.call (ok v);
            observation = some (observed e.call v);
            promotion_delta = some delta;
          }),
          (
            (((es ++ EventRecord.tool_result (result_of e.call (ok v)) ∷ [])
                    ++ EventRecord.observation
                        (build_observation_event (observed e.call v) "observation_boundary")
                      ∷ [])
                  ++ EventRecord.commitment ce ∷ [])
                ++ logged (beliefs_open context) (next_revision revs delta ce),
            w',
          ),
        )
  unfolding continue_flow result_of
  continue-promoted runner key plan_id context e handler v delta es w w' revs allowed found ran made
        belief old =
      ap (λ r. continue r.0 (λ t. after_run t.status (some key) plan_id context e t) r.1)
        (run-allowed runner true e.call handler (ok v) es w w' allowed found ran)
      ∙ after_run-promoted key plan_id context e e.call v delta
          (es ++ EventRecord.tool_result (result_of e.call (ok v)) ∷ []) w' revs made belief old

  -- A flow whose call is allowed goes on.
  decision-allowed :
      (runner : ReadOnlyRunner F W) (key : Option String) (plan_id : String)
      (context : Option DomainContext) (e : ToolCallEvent F) (s : EventLog F × W)
      → e.decision.verdict ≡ allow
      → flow_of_decision (verdict_allowed e.decision.verdict) runner key plan_id context e s
        ≡ continue_flow true runner key plan_id context e s
  unfolding flow_of_decision run_allowed_tool_call_observation_flow
  decision-allowed runner key plan_id context e s h =
      ap (λ v. flow_of_decision (verdict_allowed v) runner key plan_id context e s) h
      ∙ ap (λ v. continue_flow (verdict_allowed v) runner key plan_id context e s) h

  -- A call that the policy does not allow reaches no handler: the flow returns without an observation,
  -- the world is as before, and the new records are the call and its failed result.
  pub run_read_only_tool_observation_flow-blocked :
      (runner : ReadOnlyRunner F W) (key : Option String) (plan_id : String)
      (context : Option DomainContext) (call : ToolCallSpec F) (es : EventLog F) (w : W)
      → ¬ ((evaluate_tool_call_policy call runner.registry).verdict ≡ allow)
      → let e = build_tool_call_event call runner.registry "tool_policy" in
        (t : ToolResultEvent F) × (run_read_only_tool_observation_flow runner key plan_id context
            call
            (es, w)
          ≡ (
            ok (unobserved e t),
            (es ++ EventRecord.tool_call e ∷ EventRecord.tool_result t ∷ [], w),
          ))
        × (t.status ≡ failed)
  unfolding run_read_only_tool_observation_flow log build_tool_call_event evaluate_tool_call_policy
  run_read_only_tool_observation_flow-blocked runner key plan_id context call es w h =
      let e = build_tool_call_event call runner.registry "tool_policy" in
      let (t, ran, status) =
        decision-blocked _ runner key plan_id context e (es ++ EventRecord.tool_call e ∷ []) w refl
          h in
      (t, ran ∙ ap (λ l. (ok (unobserved e t), (l, w))) (append_assoc es _ _), status)

  -- An allowed call whose handler returns, with a key to promote to that is not blank: the flow
  -- returns. The new records are the call, its result, the observation, and a commitment that names the
  -- update of `beliefs.` and the key, with the delta of that update in the result; they end with a
  -- revision of that delta, caused by the commitment, exactly if the domain leaves the beliefs open,
  -- and so does the commitment succeed. The revision starts from the state in which the log's last revision resulted
  -- (`ws_0` if there is none) and results in `ws_(n + 1)`, where `n` revisions were in the log.
  pub run_read_only_tool_observation_flow-promoted :
      (runner : ReadOnlyRunner F W) (key plan_id : String) (context : Option DomainContext)
      (call : ToolCallSpec F) (handler : ToolHandler F W) (v : Value F) (es : EventLog F) (w w' : W)
      → all_spaces key ≡ false
      → (evaluate_tool_call_policy call runner.registry).verdict ≡ allow
      → find_handler runner.handlers call.tool_name ≡ some handler
      → handler call.arguments w ≡ (ok v, w')
      → let e = build_tool_call_event call runner.registry "tool_policy" in
        let t = result_of call (ok v) in
        (o : ObservationCandidate F) × (delta : RevisionDelta F) × (ce : CommitmentEvent F)
        × (rev : ModelRevisionEvent F) × (run_read_only_tool_observation_flow runner
              (some key)
              plan_id
              context
              call
              (es, w)
            ≡ (
              ok (record {
                tool_call_event = e;
                tool_result_event = t;
                observation = some o;
                promotion_delta = some delta;
              }),
              (
                es
                    ++ EventRecord.tool_call e
                      ∷ EventRecord.tool_result t
                      ∷ EventRecord.observation (build_observation_event o "observation_boundary")
                      ∷ EventRecord.commitment ce
                      ∷ logged (beliefs_open context) rev,
                w',
              ),
            ))
        × (delta.target_ref ≡ "beliefs." <> key)
        × (delta.target_kind ≡ entity_update)
        × (ce.action_summary ≡ "entity_update" <> " " <> "beliefs." <> key)
        × (ce.event_id ≡ "ce-pl-" <> plan_id <> "-" <> show 0)
        × (ce.success ≡ beliefs_open context)
        × (rev.caused_by_event_id ≡ ce.event_id)
        × (rev.deltas ≡ delta ∷ [])
        × (rev.prior_state_id ≡ current_state (revision_events es))
        × (rev.resulting_state_id ≡ "ws_" <> show (length (revision_events es) + 1))
  unfolding run_read_only_tool_observation_flow log build_tool_call_event evaluate_tool_call_policy
      promotion_commitment build_commitment_from_delta next_revision build_revision_from_delta
      target_text
  run_read_only_tool_observation_flow-promoted runner key plan_id context call handler v es w w'
        filled allowed found ran =
      let e = build_tool_call_event call runner.registry "tool_policy" in
      let (delta, made, belief) =
        promote_observation_to_delta-IsBelief (observed call v) key filled in
      let ce = promotion_commitment plan_id context delta in
      let rev = next_revision (revision_events es) delta ce in
      (
        observed call v,
        delta,
        ce,
        rev,
        decision-allowed runner (some key) plan_id context e _ allowed
            ∙ continue-promoted runner key plan_id context e handler v delta
                (es ++ EventRecord.tool_call e ∷ []) w w' (revision_events es) allowed found ran
                made belief (revisions-call es e (result_of call (ok v)))
            ∙ four_and _ w' (logged (beliefs_open context) rev) es _ _ _ _,
        belief.at_key,
        belief.updates,
        ap (λ kind. target_text kind <> " " <> delta.target_ref) belief.updates
            ∙ ap (λ ref. "entity_update" <> " " <> ref) belief.at_key,
        refl,
        promotion-beliefs_open delta key context belief,
        refl,
        refl,
        refl,
        refl,
      )
