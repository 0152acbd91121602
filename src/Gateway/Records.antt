-- ===== src/Gateway/Records.antt =====
-- src/cee_core/tool_gateway.py: lemmas on the records of an execution and on the promoted delta.
use cognitive_execution_engi.Prelude.{
  String, ◌≡◌, refl, ap, ◌∙◌, true, false, List, [], ◌∷◌, ◌++◌, append_assoc, append-nil, Option,
  none, ◌<>◌, arith,
}
use cognitive_execution_engi.Prelude.{diverge, strip_prefix-diverge}
use cognitive_execution_engi.World.Schema.{RevisionDelta, entity_update}
use cognitive_execution_engi.DeltaPolicy.{evaluate_delta_policy}
use cognitive_execution_engi.DeltaPolicy.Overlay.{evaluate_delta_policy-allows}
use cognitive_execution_engi.Planner.{takes_effect}
use cognitive_execution_engi.Prelude.{all_spaces, length}
use cognitive_execution_engi.Value.{Platform, Value}
use cognitive_execution_engi.Outcome.{Outcome, Returns, ok, raise}
use cognitive_execution_engi.Commitment.{CommitmentEvent}
use cognitive_execution_engi.Tools.{ToolCallSpec, ToolResultEvent, allow, evaluate_tool_call_policy}
use cognitive_execution_engi.Observation.{
  ObservationEvent, ObservationCandidate, promote_observation_to_delta,
  promote_observation_to_belief_delta, build_belief_payload, belief_of,
}
use cognitive_execution_engi.EventLog.{EventLog, EventRecord, revision_events}
use cognitive_execution_engi.EventLog.Queries.{revision_events-append}
use cognitive_execution_engi.Gateway.{ToolGateway, Draws}
use cognitive_execution_engi.Gateway.Run.{execute, execute_verdict, contact}

-- Records appended one by one, in the outcome of a run.
module _ {A B W : Type 0} (r : B) (w : W) (es : List A) where
  pub two :
      (a b : A)
      → ◌≡◌ {A = B × (List A × W)} (r, ((es ++ a ∷ []) ++ b ∷ [], w)) (r, (es ++ a ∷ b ∷ [], w))
  two a b = ap (λ l. (r, (l, w))) (append_assoc es (a ∷ []) (b ∷ []))

  pub three :
      (a b c : A)
      → ◌≡◌ {A = B × (List A × W)}
          (r, (((es ++ a ∷ []) ++ b ∷ []) ++ c ∷ [], w))
          (r, (es ++ a ∷ b ∷ c ∷ [], w))
  three a b c =
      ap (λ l. (r, (l, w)))
        (append_assoc (es ++ a ∷ []) (b ∷ []) (c ∷ []) ∙ append_assoc es (a ∷ []) (b ∷ c ∷ []))

  pub four :
      (a b c d : A)
      → ◌≡◌ {A = B × (List A × W)}
          (r, ((((es ++ a ∷ []) ++ b ∷ []) ++ c ∷ []) ++ d ∷ [], w))
          (r, (es ++ a ∷ b ∷ c ∷ d ∷ [], w))
  four a b c d =
      ap (λ l. (r, (l, w)))
        (ap (λ l. l ++ d ∷ []) (ap (λ x. x.1.0) (three a b c))
          ∙ append_assoc es (a ∷ b ∷ c ∷ []) (d ∷ []))

  pub five :
      (a b c d e : A)
      → ◌≡◌ {A = B × (List A × W)}
          (r, (((((es ++ a ∷ []) ++ b ∷ []) ++ c ∷ []) ++ d ∷ []) ++ e ∷ [], w))
          (r, (es ++ a ∷ b ∷ c ∷ d ∷ e ∷ [], w))
  five a b c d e =
      ap (λ l. (r, (l, w)))
        (ap (λ l. l ++ e ∷ []) (ap (λ x. x.1.0) (four a b c d))
          ∙ append_assoc es (a ∷ b ∷ c ∷ d ∷ []) (e ∷ []))

-- What a call that returns gives.
pub returned :
    {A : Type 0} (P : A → Type 0) (m : Outcome A) → Returns P m → (a : A) × (m ≡ ok a) × P a
returned P (ok a) h = (a, refl, h)
returned P (raise e) h = absurd h

module _ {F : Type 0} where
  -- A delta that updates a belief takes effect.
  pub belief_passes :
      (delta : RevisionDelta F) (key : String)
      → delta.target_ref ≡ "beliefs." <> key
      → delta.target_kind ≡ entity_update
      → takes_effect (evaluate_delta_policy delta) ≡ true
  unfolding diverge
  belief_passes delta key ref kind = ground (
    arith,
    evaluate_delta_policy-allows delta,
    strip_prefix-diverge "policy." "beliefs." key refl,
    strip_prefix-diverge "meta." "beliefs." key refl,
    strip_prefix-diverge "tool_affordances." "beliefs." key refl,
  )

  -- Records that are no revisions do not change the count.
  pub revision_count-four :
      (es : EventLog F) (c d : CommitmentEvent F) (t : ToolResultEvent F) (o : ObservationEvent F)
      → length (
          revision_events (
            (((es ++ EventRecord.commitment c ∷ []) ++ EventRecord.tool_result t ∷ [])
              ++ EventRecord.observation o ∷ [])
            ++ EventRecord.commitment d ∷ []))
        ≡ length (revision_events es)
  unfolding revision_events
  revision_count-four es c d t o =
      ap (λ l. length (revision_events l)) (ap (λ x. x.1.0) (four tt tt es _ _ _ _))
      ∙ ap length (revision_events-append es _ ∙ append-nil (revision_events es))

module _ {F : Type 0} ⦃p : Platform F⦄ where
  -- the observation of a result that succeeded
  abbrev pub observed : ToolCallSpec F → Value F → ObservationCandidate F
  observed call v = record {
    source_tool = call.tool_name;
    call_id = call.call_id;
    content = v;
    confidence = p.decimal 8 1;
    evidence_weight = p.decimal 1 0;
    provenance = ("tool:" <> call.tool_name) ∷ ("call:" <> call.call_id) ∷ [];
  }

  pub promoted :
      (o : ObservationCandidate F) (key : String)
      → all_spaces key ≡ false
      → (delta : RevisionDelta F) × (promote_observation_to_delta o key ≡ ok delta)
        × ((delta.target_ref ≡ "beliefs." <> key)
            × (takes_effect (evaluate_delta_policy delta) ≡ true))
  unfolding promote_observation_to_delta promote_observation_to_belief_delta build_belief_payload
      belief_of diverge
  promoted o key filled =
      returned _ (promote_observation_to_delta o key)
        (rw filled (refl, belief_passes _ key refl refl))

module _ {F W : Type 0} ⦃p : Platform F⦄ where
  pub allowed_runs :
      (draws : Draws) (gateway : ToolGateway F W) (key : Option String) (id : String)
      (call : ToolCallSpec F) (s : EventLog F × W)
      → (evaluate_tool_call_policy call gateway.registry).verdict ≡ allow
      → execute draws gateway key id call s
        ≡ contact gateway key id call (evaluate_tool_call_policy call gateway.registry) none s
  unfolding execute execute_verdict
  allowed_runs draws gateway key id call s allowed =
      ap
        (λ v.
          execute_verdict v draws gateway key id call
            (evaluate_tool_call_policy call gateway.registry) s)
        allowed
