-- ===== src/Gateway/Access.antt =====
-- src/cee_core/tool_gateway.py: which calls reach a handler.
use cognitive_execution_engi.Prelude.{
  String, ◌≡◌, refl, ap, Bool, true, false, [], ◌∷◌, ◌++◌, append_assoc, Option, none, some, ◌<>◌,
}
use mathlib.Core.Path.{subst}
use cognitive_execution_engi.Value.{Platform}
use cognitive_execution_engi.Outcome.{Outcome, ok, raise, Exception}
use cognitive_execution_engi.Exec.{Exec, continue}
use cognitive_execution_engi.Tools.{
  ToolSpec, ToolRisk, read, ToolCallSpec, ToolPolicyDecision, ToolVerdict, allow, deny,
  requires_approval, failed, get, evaluate_tool_call_policy, risk_verdict, policy_of,
}
use cognitive_execution_engi.Approval.{ApprovalDecision, is_approved, to_event}
use cognitive_execution_engi.EventLog.{EventLog, EventRecord, commitment_events, revision_events}
use cognitive_execution_engi.Gateway.{
  ToolGateway, ToolGatewayResult, Draws, log, outside, check_approval, failure, refused,
  record_denied, record_approval_denied,
}
use cognitive_execution_engi.Gateway.Run.{execute, execute_verdict, after_approval}

module _ {F : Type 0} where
  -- the tool is registered as one that reads
  abbrev pub is_read_tool : Option (ToolSpec F) → Bool
  is_read_tool none = false
  is_read_tool (some tool) = elim tool.risk [ read ↦ true | _ ↦ false ]

module _ {F W : Type 0} where
  -- whether the provider approves the call, in the world that it leaves
  abbrev pub approves : Outcome (ApprovalDecision F) × W → Outcome Bool × W
  approves (ok approval, w) = (ok (is_approved approval.verdict), w)
  approves (raise e, w) = (raise e, w)

  abbrev permission_for : ToolVerdict → Draws → ToolGateway F W → ToolCallSpec F → Exec W Bool
  permission_for allow draws gateway call w = (ok true, w)
  permission_for deny draws gateway call w = (ok false, w)
  permission_for requires_approval draws gateway call w =
      approves
        (check_approval gateway draws call (evaluate_tool_call_policy call gateway.registry) w)

  -- What decides on a call: the verdict on the tool, and the provider where that asks for approval.
  unfoldable pub permission : Draws → ToolGateway F W → ToolCallSpec F → Exec W Bool
  permission draws gateway call =
      permission_for (evaluate_tool_call_policy call gateway.registry).verdict draws gateway call

  no_provider_for :
      (tool : Option (ToolSpec F)) (draws : Draws) (gateway : ToolGateway F W)
      (call : ToolCallSpec F) (w : W)
      → gateway.approval_provider ≡ none
      → permission_for (policy_of call.tool_name tool).verdict draws gateway call w
        ≡ (ok (is_read_tool tool), w)
  unfolding policy_of risk_verdict check_approval
  no_provider_for none draws gateway call w alone = refl
  no_provider_for (some tool) draws gateway call w alone = go tool.risk
    where
      go :
          (risk : ToolRisk)
          → permission_for (risk_verdict risk) draws gateway call w
            ≡ (ok (elim risk [ read ↦ true | _ ↦ false ]), w)
      go read = refl
      go _ = rw alone refl

  -- A gateway without an approval provider permits exactly the calls of the tools that are registered
  -- as read tools, and asks nobody.
  permission-no_provider :
      (draws : Draws) (gateway : ToolGateway F W) (call : ToolCallSpec F) (w : W)
      → gateway.approval_provider ≡ none
      → permission draws gateway call w
        ≡ (ok (is_read_tool (get gateway.registry call.tool_name)), w)
  unfolding permission evaluate_tool_call_policy
  permission-no_provider draws gateway call w alone =
      no_provider_for (get gateway.registry call.tool_name) draws gateway call w alone

ok-injective : {a b : Bool} → ok a ≡ ok b → a ≡ b
ok-injective h = cc

raise-ok : {e : Exception} {b : Bool} → ¬ (raise e ≡ ok b)
raise-ok h = cc

true-false : ¬ (true ≡ false)
true-false h = cc

module _ {F W : Type 0} ⦃p : Platform F⦄ where
  -- The execution failed before a contact: the world is the one that the decision left, and the new
  -- records have no commitment and no revision.
  abbrev pub Refused :
      ToolCallSpec F → EventLog F → W → Outcome (ToolGatewayResult F) × (EventLog F × W) → Type 0
  Refused call es w run =
      (result : ToolGatewayResult F) × (records : EventLog F) × (run
        ≡ (ok result, (es ++ records, w)))
      × (result.tool_result.status ≡ failed)
      × (result.commitment_event ≡ none)
      × (commitment_events records ≡ [])
      × (revision_events records ≡ [])

  Refused-at :
      (b : Bool) (gateway : ToolGateway F W) (key : Option String) (id : String)
      (call : ToolCallSpec F) (d : ToolPolicyDecision) (approval : ApprovalDecision F)
      (es : EventLog F) (w : W)
      → b ≡ false
      → Refused call es w (after_approval b gateway key id call d approval (es, w))
  unfolding after_approval record_approval_denied log failure refused commitment_events
      revision_events
  Refused-at true gateway key id call d approval es w h = cc
  Refused-at false gateway key id call d approval es w h =
      let result =
        refused call d (some approval) false
          (failure call ("tool requires approval but was not approved: " <> d.reason)) in
      (
        result,
        EventRecord.approval (to_event approval) ∷ EventRecord.tool_result result.tool_result ∷ [],
        ap (λ l. (ok result, (l, w)))
            (append_assoc es (EventRecord.approval (to_event approval) ∷ [])
              (EventRecord.tool_result result.tool_result ∷ [])),
        refl,
        refl,
        refl,
        refl,
      )

  Refused-by :
      (r : Outcome (ApprovalDecision F)) (w' : W) (gateway : ToolGateway F W) (key : Option String)
      (id : String) (call : ToolCallSpec F) (d : ToolPolicyDecision) (es : EventLog F) (w : W)
      → approves (r, w') ≡ (ok false, w)
      → Refused call es w (
          continue r (λ a. after_approval (is_approved a.verdict) gateway key id call d a) (es, w'))
  Refused-by (ok approval) w' gateway key id call d es w h =
      subst
        (λ x.
          Refused call es x
            (after_approval (is_approved approval.verdict) gateway key id call d approval (es, w')))
        (ap (λ x. x.1) h)
        (Refused-at (is_approved approval.verdict) gateway key id call d approval es w'
          (ok-injective (ap (λ x. x.0) h)))
  Refused-by (raise e) w' gateway key id call d es w h = absurd (raise-ok (ap (λ x. x.0) h))

  execute_verdict-Refused :
      (verdict : ToolVerdict) (draws : Draws) (gateway : ToolGateway F W) (key : Option String)
      (id : String) (call : ToolCallSpec F) (es : EventLog F) (w w' : W)
      → permission_for verdict draws gateway call w ≡ (ok false, w')
      → Refused call es w' (
          execute_verdict verdict draws gateway key id call
            (evaluate_tool_call_policy call gateway.registry)
            (es, w))
  unfolding execute_verdict outside record_denied log failure refused commitment_events
      revision_events
  execute_verdict-Refused allow draws gateway key id call es w w' h =
      absurd (true-false (ok-injective (ap (λ x. x.0) h)))
  execute_verdict-Refused deny draws gateway key id call es w w' h =
      let d = evaluate_tool_call_policy call gateway.registry in
      let result = refused call d none true (failure call ("tool policy denied: " <> d.reason)) in
      let records = EventRecord.tool_result result.tool_result ∷ [] in
      (
        result,
        records,
        ap (λ x. (ok result, (es ++ records, x))) (ap (λ x. x.1) h),
        refl,
        refl,
        refl,
        refl,
      )
  execute_verdict-Refused requires_approval draws gateway key id call es w w' h =
      let d = evaluate_tool_call_policy call gateway.registry in
      let asked = check_approval gateway draws call d w in
      Refused-by asked.0 asked.1 gateway key id call d es w' h

  -- A call that is not permitted does not reach a handler: the execution returns a failed result, the
  -- world is the one that the decision on the call left, and the new records have no commitment and
  -- no revision.
  pub execute-Refused :
      (draws : Draws) (gateway : ToolGateway F W) (key : Option String) (id : String)
      (call : ToolCallSpec F) (es : EventLog F) (w w' : W)
      → permission draws gateway call w ≡ (ok false, w')
      → Refused call es w' (execute draws gateway key id call (es, w))
  unfolding permission execute
  execute-Refused draws gateway key id call es w w' h =
      execute_verdict-Refused _ draws gateway key id call es w w' h
