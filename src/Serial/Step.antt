-- ===== src/Serial/Step.antt =====
-- src/cee_core/deliberation.py: `ReasoningStep` as a payload.
use cognitive_execution_engi.Prelude.{String, ◌≡◌, refl, [], ◌∷◌, true, ◌==◌, if◌then◌else◌}
use cognitive_execution_engi.Value.{Value, Entries, Platform, nil}
use cognitive_execution_engi.Outcome.{Outcome, ok, raise, ◌>>=◌, type_error}
use cognitive_execution_engi.Schemas.{require_schema_version}
use cognitive_execution_engi.Serial.{
  dict_of, required, optional, as_text, as_texts, texts, write_each, read_each, read_each_all,
  as_texts-texts, str_of,
}
use cognitive_execution_engi.Deliberation.{
  ReasoningStep, NextAction, propose_plan, request_read_tool, request_approval, propose_redirect,
  stop,
}
use cognitive_execution_engi.Schemas.{reasoning_step_schema_version}

unfoldable pub action_text : NextAction → String
action_text propose_plan = "propose_plan"
action_text request_read_tool = "request_read_tool"
action_text request_approval = "request_approval"
action_text propose_redirect = "propose_redirect"
action_text stop = "stop"

action_of : String → Outcome NextAction
action_of s =
    if s == "propose_plan"
    then ok propose_plan
    else if s == "request_read_tool"
    then ok request_read_tool
    else if s == "request_approval"
    then ok request_approval
    else if s == "propose_redirect"
    then ok propose_redirect
    else if s == "stop"
    then ok stop
    else raise (type_error "an action is expected")

module _ {F : Type 0} where
  write_action : NextAction → Value F
  unfolding action_text
  write_action a = Value.str (action_text a)

  read_action : Value F → Outcome NextAction
  unfolding as_text action_of
  read_action v = as_text v >>= action_of

action_back : (F : Type 0) (a : NextAction) → read_action (write_action {F = F} a) ≡ ok a
unfolding read_action write_action as_text action_of action_text
action_back F propose_plan = refl
action_back F request_read_tool = refl
action_back F request_approval = refl
action_back F propose_redirect = refl
action_back F stop = refl

module _ {F : Type 0} where
  unfoldable pub to_dict : ReasoningStep → Entries F
  unfolding dict_of texts write_each write_action
  to_dict r = dict_of (
      ("schema_version", Value.str reasoning_step_schema_version)
      ∷ ("step_id", Value.str r.step_id)
      ∷ ("task_id", Value.str r.task_id)
      ∷ ("summary", Value.str r.summary)
      ∷ ("hypothesis", Value.str r.hypothesis)
      ∷ ("missing_information", texts r.missing_information)
      ∷ ("candidate_actions", write_each write_action r.candidate_actions)
      ∷ ("chosen_action", write_action r.chosen_action)
      ∷ ("rationale", Value.str r.rationale)
      ∷ ("stop_condition", Value.str r.stop_condition)
      ∷ [])

module _ {F : Type 0} ⦃p : Platform F⦄ where
  unfoldable pub from_dict : Entries F → Outcome (ReasoningStep)
  unfolding require_schema_version required optional as_texts read_each read_action str_of
  from_dict payload = do
    checked ← require_schema_version payload reasoning_step_schema_version true
    step_id ← required "step_id" payload
    task_id ← required "task_id" payload
    summary ← required "summary" payload
    hypothesis ← required "hypothesis" payload
    missing_information ← as_texts (optional "missing_information" (Value.tuple nil) payload)
    candidate_actions ← required "candidate_actions" payload >>= read_each read_action
    chosen_action ← required "chosen_action" payload >>= read_action
    rationale ← required "rationale" payload
    stop_condition ← required "stop_condition" payload
    ok (record {
      step_id = str_of step_id;
      task_id = str_of task_id;
      summary = str_of summary;
      hypothesis = str_of hypothesis;
      missing_information = missing_information;
      candidate_actions = candidate_actions;
      chosen_action = chosen_action;
      rationale = str_of rationale;
      stop_condition = str_of stop_condition;
    })

pub reasoning_step_back :
    (F : Type 0) ⦃p : Platform F⦄ (r : ReasoningStep) → from_dict (to_dict {F = F} r) ≡ ok r
unfolding from_dict to_dict require_schema_version required optional dict_of str_of
reasoning_step_back F r =
    rw
      (
        as_texts-texts F r.missing_information,
        read_each_all (write_action {F = F}) read_action r.candidate_actions (action_back F),
        action_back F r.chosen_action,
      )
      refl
