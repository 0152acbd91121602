-- ===== src/Serial/Deliberated.antt =====
-- src/cee_core/events.py: `DeliberationEvent` as a payload.
use cognitive_execution_engi.Prelude.{◌≡◌, refl, [], ◌∷◌, true, Option, some, ◌==◌, if◌then◌else◌}
use cognitive_execution_engi.Value.{Value, Entries, Platform, get}
use cognitive_execution_engi.Outcome.{Outcome, ok, raise, ◌>>=◌, value_error}
use cognitive_execution_engi.Schemas.{require_schema_version}
use cognitive_execution_engi.Serial.{dict_of, required, optional, as_text, as_dict}
use cognitive_execution_engi.EventLog.{DeliberationEvent}
use cognitive_execution_engi.Serial.Step
use cognitive_execution_engi.Schemas.{deliberation_event_schema_version}

module _ {F : Type 0} where
  -- `payload.get("event_type") != "reasoning.step.selected"` raises
  check_event_type : Option (Value F) → Outcome (Unit {0})
  check_event_type (some (Value.str s)) =
      if s == "reasoning.step.selected"
      then ok tt
      else raise (value_error "Not a deliberation event payload")
  check_event_type _ = raise (value_error "Not a deliberation event payload")

module _ {F : Type 0} where
  unfoldable pub to_dict : DeliberationEvent → Entries F
  unfolding dict_of Step.to_dict
  to_dict r = dict_of (
      ("schema_version", Value.str deliberation_event_schema_version)
      ∷ ("event_type", Value.str "reasoning.step.selected")
      ∷ ("trace_id", Value.str r.trace_id)
      ∷ ("created_at", Value.str r.created_at)
      ∷ ("actor", Value.str r.actor)
      ∷ ("reasoning_step", Value.dict (Step.to_dict r.reasoning_step))
      ∷ [])

module _ {F : Type 0} ⦃p : Platform F⦄ where
  unfoldable pub from_dict : Entries F → Outcome (DeliberationEvent)
  unfolding require_schema_version required optional as_text as_dict check_event_type
  from_dict payload = do
    checked ← require_schema_version payload deliberation_event_schema_version true
    right ← check_event_type (get "event_type" payload)
    reasoning_step ← required "reasoning_step" payload >>= as_dict >>= Step.from_dict
    trace_id ← required "trace_id" payload >>= as_text
    created_at ← required "created_at" payload >>= as_text
    actor ← as_text (optional "actor" (Value.str "deliberation_engine") payload)
    ok (record {
      trace_id = trace_id;
      created_at = created_at;
      actor = actor;
      reasoning_step = reasoning_step;
    })

-- A deliberation event that is written as a payload is read back, with its reasoning step.
pub deliberation_event_back :
    (F : Type 0) ⦃p : Platform F⦄ (r : DeliberationEvent) → from_dict (to_dict {F = F} r) ≡ ok r
unfolding from_dict to_dict require_schema_version required optional dict_of as_text as_dict
    check_event_type
deliberation_event_back F r = rw (Step.reasoning_step_back F r.reasoning_step) refl
