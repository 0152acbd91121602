-- ===== src/Reality/Guarded.antt =====
-- src/cee_core/reality_interface.py: a contact through the gateway that the gateway does not permit.
use cognitive_execution_engi.Prelude.{
  String, ◌≡◌, refl, ap, ◌∙◌, true, false, [], ◌∷◌, ◌++◌, append_assoc, Option, truthy,
}
use cognitive_execution_engi.Value.{Entries, Platform}
use cognitive_execution_engi.Outcome.{Outcome, ok}
use cognitive_execution_engi.Commitment.{CommitmentEvent, tool_contact, complete_commitment}
use cognitive_execution_engi.EventLog.{EventLog, commitment_events, revision_events}
use cognitive_execution_engi.EventLog.Queries.{commitment_events-append, revision_events-append}
use cognitive_execution_engi.Gateway.{ToolGateway, log}
use cognitive_execution_engi.Gateway.Access.{permission, execute-Refused}
use cognitive_execution_engi.Reality.ByGateway.{
  ContactDraws, GatewayContactResult, contact_call, contact_record, contact_result, contact_tool,
  execute_commitment_via_gateway,
}

module _ {F W : Type 0} ⦃p : Platform F⦄ where
  abbrev pub Barred :
      CommitmentEvent F
      → EventLog F
      → W
      → Outcome (GatewayContactResult F) × (EventLog F × W)
      → Type 0
  Barred commitment es w run =
      (result : GatewayContactResult F) × (records : EventLog F) × (run
        ≡ (ok result, (es ++ records, w)))
      × (result.gateway_succeeded ≡ false)
      × (result.commitment_event.success ≡ false)
      × (result.commitment_event.event_id ≡ commitment.event_id)
      × (commitment_events records ≡ [])
      × (revision_events records ≡ [])

  contact_tool-Barred :
      (draws : ContactDraws) (commitment : CommitmentEvent F) (gateway : ToolGateway F W)
      (arguments : Option (Entries F)) (key : Option String) (id : String) (es : EventLog F)
      (w w' : W)
      → permission draws.gateway gateway (contact_call draws commitment.action_summary arguments) w
        ≡ (ok false, w')
      → Barred commitment es w' (contact_tool draws commitment gateway arguments key id (es, w))
  unfolding contact_tool log contact_result complete_commitment contact_record commitment_events
      revision_events
  contact_tool-Barred draws commitment gateway arguments key id es w w' h =
      let (result, records, ran, status, none_yet, commitments, revisions) =
        execute-Refused draws.gateway gateway key id
          (contact_call draws commitment.action_summary arguments) es w w' h in
      (
        contact_result commitment result,
        records ++ contact_record draws commitment result ∷ [],
        rw ran (
            ap (λ l. (ok (contact_result commitment result), (l, w')))
              (append_assoc es records (contact_record draws commitment result ∷ []))),
        rw status refl,
        rw status refl,
        refl,
        commitment_events-append records _ ∙ rw commitments refl,
        revision_events-append records _ ∙ rw revisions refl,
      )

  -- the contact that a commitment with a tool makes
  via :
      (repr : String → String) (draws : ContactDraws) (commitment : CommitmentEvent F)
      (gateway : ToolGateway F W) (arguments : Option (Entries F)) (key : Option String)
      (id : String)
      → commitment.commitment_kind ≡ tool_contact
      → truthy commitment.action_summary ≡ true
      → execute_commitment_via_gateway repr draws commitment gateway arguments key id
        ≡ contact_tool draws commitment gateway arguments key id
  unfolding execute_commitment_via_gateway
  via repr draws commitment gateway arguments key id k n = rw (k, n) refl

  -- A tool contact that names a tool, whose call the gateway does not permit: it returns an
  -- unsuccessful result with the commitment completed as not successful, the world is the one that the
  -- decision on the call left, and the log only grows, by records without commitments and revisions.
  pub execute_commitment_via_gateway-Barred :
      (repr : String → String) (draws : ContactDraws) (commitment : CommitmentEvent F)
      (gateway : ToolGateway F W) (arguments : Option (Entries F)) (key : Option String)
      (id : String) (es : EventLog F) (w w' : W)
      → commitment.commitment_kind ≡ tool_contact
      → truthy commitment.action_summary ≡ true
      → permission draws.gateway gateway (contact_call draws commitment.action_summary arguments) w
        ≡ (ok false, w')
      → Barred commitment es w'
          (execute_commitment_via_gateway repr draws commitment gateway arguments key id (es, w))
  execute_commitment_via_gateway-Barred repr draws commitment gateway arguments key id es w w' k n
        h =
      rw (via repr draws commitment gateway arguments key id k n)
        (contact_tool-Barred draws commitment gateway arguments key id es w w' h)
