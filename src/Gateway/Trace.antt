-- ===== src/Gateway/Trace.antt =====
-- src/cee_core/tool_gateway.py: the records that an execution of a permitted call leaves.
use cognitive_execution_engi.Prelude.{
  String, ◌≡◌, refl, ◌∙◌, true, false, [], ◌∷◌, ◌++◌, none, some, ◌<>◌,
}
use cognitive_execution_engi.World.Schema.{RevisionDelta}
use cognitive_execution_engi.Revision.{ModelRevisionEvent}
use cognitive_execution_engi.Prelude.{all_spaces, ◌+◌, show, length}
use cognitive_execution_engi.Value.{Platform, Value}
use cognitive_execution_engi.Outcome.{ok, raise, value_error}
use cognitive_execution_engi.Tools.{ToolCallSpec, allow, evaluate_tool_call_policy}
use cognitive_execution_engi.Observation.{
  observation_from_tool_result, build_observation_event, ObservationCandidate, observe_status,
  promote_observation_to_delta, promote_observation_to_belief_delta,
}
use cognitive_execution_engi.EventLog.{EventLog, EventRecord, revision_events}
use cognitive_execution_engi.Gateway.{
  ToolGateway, ToolGatewayResult, ToolHandler, Draws, log, outside, execute_handler, run_handler,
  find_handler, result_of,
}
use cognitive_execution_engi.Gateway.Run.{
  execute, execute_verdict, contact, conclude, log_promotion, revision_count, promotion_event,
  promote, contact_event, completed, log_approval,
}
use cognitive_execution_engi.Gateway.Records.{
  four, five, observed, promoted, revision_count-four, allowed_runs,
}

module _ {F W : Type 0} ⦃p : Platform F⦄ where
  -- A read tool whose handler succeeds, with a blank key to promote to: the execution raises a value
  -- error after the tool has run. The world is the handler's, and the log has the commitment, the
  -- result, the observation and the completed commitment all the same.
  execute-blank_key :
      (draws : Draws) (gateway : ToolGateway F W) (key id : String) (call : ToolCallSpec F)
      (handler : ToolHandler F W) (v : Value F) (es : EventLog F) (w w' : W)
      → all_spaces key ≡ true
      → (evaluate_tool_call_policy call gateway.registry).verdict ≡ allow
      → find_handler gateway.handlers call.tool_name ≡ some handler
      → handler call.arguments w ≡ (ok v, w')
      → let t = result_of call (ok v) in
        (o : ObservationCandidate F) × (observation_from_tool_result t ≡ ok o)
        × (execute draws gateway (some key) id call (es, w) ≡ (
          raise (value_error "belief_key cannot be empty"),
          (
            es
                ++ EventRecord.commitment (contact_event call id)
                  ∷ EventRecord.tool_result t
                  ∷ EventRecord.observation (build_observation_event o "observation_boundary")
                  ∷ EventRecord.commitment (completed call id t)
                  ∷ [],
            w',
          ),
        ))
  unfolding execute execute_verdict contact conclude log log_approval outside execute_handler
      run_handler result_of observation_from_tool_result observe_status promote
      promote_observation_to_delta promote_observation_to_belief_delta
  execute-blank_key draws gateway key id call handler v es w w' blank allowed found ran = (
    _,
    refl,
    allowed_runs draws gateway (some key) id call (es, w) allowed
        ∙ rw (found, ran, blank) (four _ w' es _ _ _ _),
  )

  -- A read tool whose handler succeeds, with a key to promote to that is not blank: the execution
  -- returns, and the observation always becomes a revision, of the one delta at `beliefs.` and the
  -- key. It comes last in the log, starts from the given state, and results in `ws_(n + 1)`, where
  -- `n` revisions were in the log.
  pub execute-promoted :
      (draws : Draws) (gateway : ToolGateway F W) (key id : String) (call : ToolCallSpec F)
      (handler : ToolHandler F W) (v : Value F) (es : EventLog F) (w w' : W)
      → all_spaces key ≡ false
      → (evaluate_tool_call_policy call gateway.registry).verdict ≡ allow
      → find_handler gateway.handlers call.tool_name ≡ some handler
      → handler call.arguments w ≡ (ok v, w')
      → let t = result_of call (ok v) in
        (result : ToolGatewayResult F) × (rev : ModelRevisionEvent F) × (delta : RevisionDelta F)
        × (o : ObservationCandidate F) × (execute draws gateway (some key) id call (es, w) ≡ (
          ok result,
          (
            es
                ++ EventRecord.commitment (contact_event call id)
                  ∷ EventRecord.tool_result t
                  ∷ EventRecord.observation (build_observation_event o "observation_boundary")
                  ∷ EventRecord.commitment (completed call id t)
                  ∷ EventRecord.revision rev
                  ∷ [],
            w',
          ),
        ))
        × (result.revision_event ≡ some rev)
        × (rev.deltas ≡ delta ∷ [])
        × (delta.target_ref ≡ "beliefs." <> key)
        × (rev.prior_state_id ≡ id)
        × (rev.resulting_state_id ≡ "ws_" <> show (length (revision_events es) + 1))
  unfolding contact conclude log log_approval outside execute_handler run_handler result_of
      observation_from_tool_result observe_status promote log_promotion revision_count
      promotion_event revision_events
  execute-promoted draws gateway key id call handler v es w w' filled allowed found ran =
      let (delta, made, (ref, passed)) = promoted (observed call v) key filled in
      let rev =
        promotion_event call id (contact_event call id).event_id delta
          (length (revision_events es)) in
      (
        record {
          call = call;
          policy_decision = evaluate_tool_call_policy call gateway.registry;
          commitment_event = some (contact_event call id);
          tool_result = result_of call (ok v);
          observation = some (observed call v);
          promotion_delta = some delta;
          revision_event = some rev;
          approval_decision = none;
          approved = true;
        },
        rev,
        delta,
        observed call v,
        allowed_runs draws gateway (some key) id call (es, w) allowed
            ∙ rw (found, ran, made, passed, revision_count-four es _ _ _ _)
                (five _ w' es _ _ _ _ _),
        refl,
        refl,
        ref,
        refl,
        refl,
      )
