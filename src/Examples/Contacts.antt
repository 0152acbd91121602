-- ===== src/Examples/Contacts.antt =====
-- The tool gateway on concrete inputs: the world counts the runs of a handler.
use cognitive_execution_engi.Prelude.{
  ℕ, ◌+◌, ◌≡◌, refl, [], ◌∷◌, ◌++◌, length, none, some, ◌<>◌, show, all_spaces,
}
use cognitive_execution_engi.Value
use cognitive_execution_engi.Outcome.{ok}
use cognitive_execution_engi.World.Schema.{RevisionDelta}
use cognitive_execution_engi.Revision.{ModelRevisionEvent}
use cognitive_execution_engi.Tools.{get, evaluate_tool_call_policy}
use cognitive_execution_engi.Observation.{ObservationCandidate, build_observation_event}
use cognitive_execution_engi.EventLog.{EventLog, EventRecord, revision_events}
use cognitive_execution_engi.Gateway.{ToolGatewayResult, check_approval, find_handler, result_of}
use cognitive_execution_engi.Gateway.Run.{execute, execute_batch, contact_event, completed}
use cognitive_execution_engi.Gateway.Access.{permission, Refused, execute-Refused}
use cognitive_execution_engi.Gateway.Append.{Grows, execute_batch-Grows}
use cognitive_execution_engi.Gateway.Trace.{execute-promoted}
use cognitive_execution_engi.Examples.{
  fixed_point, draws, gateway_of, counting, failing, call_of, commitment_record,
}

abbrev old_log : EventLog ℕ
old_log = commitment_record ∷ []

execute-Refused_example :
    Refused
      (call_of "write_file")
      old_log
      7
      (execute draws (gateway_of counting) none "ws_4" (call_of "write_file") (old_log, 7))
unfolding permission evaluate_tool_call_policy check_approval get
execute-Refused_example =
    execute-Refused draws (gateway_of counting) none "ws_4" (call_of "write_file") old_log 7 7 refl

execute_batch-Grows_example : Grows old_log (
    execute_batch
      (gateway_of failing)
      (("c1", " ") ∷ [])
      "ws_4"
      ((draws, call_of "read_docs") ∷ [])
      (old_log, 7))
execute_batch-Grows_example =
    execute_batch-Grows (gateway_of failing) (("c1", " ") ∷ []) "ws_4"
      ((draws, call_of "read_docs") ∷ []) old_log 7

execute-promoted_example :
    let call = call_of "read_docs" in
    let t = result_of call (ok (Value.str "text")) in
    (result : ToolGatewayResult ℕ) × (rev : ModelRevisionEvent ℕ) × (delta : RevisionDelta ℕ)
    × (o : ObservationCandidate ℕ) × (execute draws
          (gateway_of counting)
          (some "door")
          "ws_4"
          call
          (old_log, 7)
        ≡ (
          ok result,
          (
            old_log
                ++ EventRecord.commitment (contact_event call "ws_4")
                  ∷ EventRecord.tool_result t
                  ∷ EventRecord.observation (build_observation_event o "observation_boundary")
                  ∷ EventRecord.commitment (completed call "ws_4" t)
                  ∷ EventRecord.revision rev
                  ∷ [],
            8,
          ),
        ))
    × (result.revision_event ≡ some rev)
    × (rev.deltas ≡ delta ∷ [])
    × (delta.target_ref ≡ "beliefs." <> "door")
    × (rev.prior_state_id ≡ "ws_4")
    × (rev.resulting_state_id ≡ "ws_" <> show (length (revision_events old_log) + 1))
unfolding evaluate_tool_call_policy find_handler all_spaces get
execute-promoted_example =
    execute-promoted draws (gateway_of counting) "door" "ws_4" (call_of "read_docs") counting
      (Value.str "text") old_log 7 8 refl refl refl refl
