-- ===== src/Gateway/Append.antt =====
-- src/cee_core/tool_gateway.py: the gateway only appends to the event log, also where it raises.
use cognitive_execution_engi.Prelude.{
  String, ◌≡◌, refl, ap, sym, ◌∙◌, Bool, true, false, List, [], ◌∷◌, ◌++◌, append-nil, append_assoc,
  Option, none, some,
}
use cognitive_execution_engi.Value.{Platform}
use cognitive_execution_engi.Outcome.{Outcome, ok, raise}
use cognitive_execution_engi.Exec.{Exec, continue, lift, ◌>>=◌, ◌>>◌}
use cognitive_execution_engi.World.Schema.{RevisionDelta}
use cognitive_execution_engi.Tools.{
  ToolCallSpec, ToolPolicyDecision, ToolVerdict, allow, deny, requires_approval, ToolResultEvent,
  ToolStatus, succeeded, failed,
}
use cognitive_execution_engi.Approval.{ApprovalDecision, is_approved}
use cognitive_execution_engi.Observation.{
  ObservationCandidate, observation_from_tool_result, promote_observation_to_delta,
}
use cognitive_execution_engi.EventLog.{EventLog, EventRecord}
use cognitive_execution_engi.Gateway.{
  ToolGateway, Draws, log, outside, execute_handler, check_approval, record_denied,
  record_approval_denied,
}
use cognitive_execution_engi.Gateway.Run.{
  revision_count, log_promotion, promote, conclude, log_approval, contact, after_approval,
  execute_verdict, execute, execute_batch, promotion_key, next_state,
}

module _ {F W : Type 0} where
  -- the log of a final state begins with the old log
  abbrev pub Grows : {A : Type 0} → EventLog F → Outcome A × (EventLog F × W) → Type 0
  Grows es (r, (es', w')) = (records : EventLog F) × (es' ≡ es ++ records)

  -- an action that only appends to the log
  pub record Appends {A : Type 0} (m : Exec (EventLog F × W) A) : Type 0 where
    pub grows : (es : EventLog F) (w : W) → Grows es (m (es, w))

  continue-Grows :
      {A B : Type 0} (f : A → Exec (EventLog F × W) B)
      → ((a : A) → Appends (f a))
      → (es : EventLog F) (r : Outcome A) (s : EventLog F × W) → Grows es (r, s)
      → Grows es (continue r f s)
  continue-Grows f k es (raise e) (es', w') g = g
  continue-Grows f k es (ok a) (es', w') (records, g) =
      let (more, h) = (k a).grows es' w' in
      (records ++ more, h ∙ ap (λ l. l ++ more) g ∙ append_assoc es records more)

  pub >>=-Appends :
      {A B : Type 0} (m : Exec (EventLog F × W) A) (f : A → Exec (EventLog F × W) B)
      → Appends m
      → ((a : A) → Appends (f a))
      → Appends (m >>= f)
  >>=-Appends m f h k = record {
    grows = λ es w. continue-Grows f k es (m (es, w)).0 (m (es, w)).1 (h.grows es w);
  }

  pub >>-Appends :
      {A B : Type 0} (m : Exec (EventLog F × W) A) (n : Exec (EventLog F × W) B)
      → Appends m
      → Appends n
      → Appends (m >> n)
  >>-Appends m n h k = >>=-Appends m (λ a. n) h (λ a. k)

  pub lift-Appends : {A : Type 0} (r : Outcome A) → Appends (lift r)
  lift-Appends r = record { grows = λ es w. ([], sym (append-nil es)) }

  pub outside-Appends : {A : Type 0} (m : Exec W A) → Appends (outside m)
  unfolding outside
  outside-Appends m = record { grows = λ es w. ([], sym (append-nil es)) }

  pub log-Appends : (e : EventRecord F) → Appends (log e)
  unfolding log
  log-Appends e = record { grows = λ es w. (e ∷ [], refl) }

  revision_count-Appends : Appends revision_count
  unfolding revision_count
  revision_count-Appends = record { grows = λ es w. ([], sym (append-nil es)) }

module _ {F W : Type 0} ⦃p : Platform F⦄ where
  log_promotion-Appends :
      (b : Bool) (call : ToolCallSpec F) (id : String) (delta : RevisionDelta F)
      → Appends {W = W} (log_promotion b call id delta)
  unfolding log_promotion log revision_count
  log_promotion-Appends false call id delta = lift-Appends (ok none)
  log_promotion-Appends true call id delta = record { grows = λ es w. (_ ∷ [], refl) }

  promote-Appends :
      (key : Option String) (call : ToolCallSpec F) (id : String) (o : ObservationCandidate F)
      → Appends {W = W} (promote key call id o)
  unfolding promote
  promote-Appends none call id o = lift-Appends (ok _)
  promote-Appends (some key) call id o =
      >>=-Appends (lift (promote_observation_to_delta o key)) _ (lift-Appends _) (λ delta.
        >>=-Appends (log_promotion _ call id delta) _ (log_promotion-Appends _ call id delta)
          (λ rev. lift-Appends (ok _)))

  conclude-Appends :
      (status : ToolStatus) (key : Option String) (call : ToolCallSpec F) (id : String)
      (t : ToolResultEvent F)
      → Appends {W = W} (conclude status key call id t)
  unfolding conclude
  conclude-Appends succeeded key call id t =
      >>=-Appends (lift (observation_from_tool_result t)) _ (lift-Appends _) (λ o.
        >>-Appends (log _) _ (log-Appends _)
          (>>-Appends (log _) _ (log-Appends _) (promote-Appends key call id o)))
  conclude-Appends failed key call id t = >>-Appends (log _) _ (log-Appends _) (lift-Appends (ok _))

  log_approval-Appends : (d : Option (ApprovalDecision F)) → Appends {W = W} (log_approval d)
  unfolding log_approval
  log_approval-Appends none = lift-Appends (ok tt)
  log_approval-Appends (some d) = log-Appends _

  contact-Appends :
      (gateway : ToolGateway F W) (key : Option String) (id : String) (call : ToolCallSpec F)
      (decision : ToolPolicyDecision) (approval : Option (ApprovalDecision F))
      → Appends (contact gateway key id call decision approval)
  unfolding contact
  contact-Appends gateway key id call decision approval = >>-Appends (log _) _ (log-Appends _) (
      >>-Appends (log_approval approval) _ (log_approval-Appends approval) (
        >>=-Appends (outside (execute_handler gateway call)) _ (outside-Appends _) (λ t.
          >>-Appends (log _) _ (log-Appends _) (
            >>=-Appends (conclude t.status key call id t) _
              (conclude-Appends t.status key call id t) (λ y. lift-Appends (ok _))))))

  after_approval-Appends :
      (b : Bool) (gateway : ToolGateway F W) (key : Option String) (id : String)
      (call : ToolCallSpec F) (decision : ToolPolicyDecision) (approval : ApprovalDecision F)
      → Appends (after_approval b gateway key id call decision approval)
  unfolding after_approval record_approval_denied
  after_approval-Appends true gateway key id call decision approval =
      contact-Appends gateway key id call decision (some approval)
  after_approval-Appends false gateway key id call decision approval =
      >>-Appends (log _) _ (log-Appends _)
        (>>-Appends (log _) _ (log-Appends _) (lift-Appends (ok _)))

  execute_verdict-Appends :
      (verdict : ToolVerdict) (draws : Draws) (gateway : ToolGateway F W) (key : Option String)
      (id : String) (call : ToolCallSpec F) (decision : ToolPolicyDecision)
      → Appends (execute_verdict verdict draws gateway key id call decision)
  unfolding execute_verdict record_denied
  execute_verdict-Appends deny draws gateway key id call decision =
      >>-Appends (log _) _ (log-Appends _) (lift-Appends (ok _))
  execute_verdict-Appends allow draws gateway key id call decision =
      contact-Appends gateway key id call decision none
  execute_verdict-Appends requires_approval draws gateway key id call decision =
      >>=-Appends (outside (check_approval gateway draws call decision)) _ (outside-Appends _)
        (λ approval.
          after_approval-Appends (is_approved approval.verdict) gateway key id call decision
            approval)

  pub execute-Appends :
      (draws : Draws) (gateway : ToolGateway F W) (key : Option String) (id : String)
      (call : ToolCallSpec F)
      → Appends (execute draws gateway key id call)
  unfolding execute
  execute-Appends draws gateway key id call = execute_verdict-Appends _ draws gateway key id call _

  execute_batch-Appends :
      (gateway : ToolGateway F W) (keys : List (String × String)) (id : String)
      (calls : List (Draws × ToolCallSpec F))
      → Appends (execute_batch gateway keys id calls)
  unfolding execute_batch
  execute_batch-Appends gateway keys id [] = lift-Appends (ok [])
  execute_batch-Appends gateway keys id ((draws, call) ∷ calls) =
      >>=-Appends (execute draws gateway (promotion_key keys call.call_id) id call) _
        (execute-Appends draws gateway (promotion_key keys call.call_id) id call)
        (λ result.
          >>=-Appends (execute_batch gateway keys (next_state id result.revision_event) calls) _
            (execute_batch-Appends gateway keys (next_state id result.revision_event) calls)
            (λ rest. lift-Appends (ok _)))

  -- The execution of a batch only appends to the event log, whatever the handlers and the approval
  -- provider do, and also where it raises: the log before is a prefix of the log after.
  pub execute_batch-Grows :
      (gateway : ToolGateway F W) (keys : List (String × String)) (id : String)
      (calls : List (Draws × ToolCallSpec F)) (es : EventLog F) (w : W)
      → Grows es (execute_batch gateway keys id calls (es, w))
  execute_batch-Grows gateway keys id calls es w =
      (execute_batch-Appends gateway keys id calls).grows es w
