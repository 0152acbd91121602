-- ===== src/Examples/Workflows.antt =====
-- Workflows and routing on concrete inputs: the world counts the executed steps.
use cognitive_execution_engi.Prelude.{
  ℕ, ◌+◌, ◌≤◌, String, ◌==◌, ◌≡◌, refl, ◌⊎◌, ◌&&◌, not, true, false, any, [], ◌∷◌, map, length,
  none, some, or_else, if◌then◌else◌, leb, ltb,
}
use cognitive_execution_engi.Value
use cognitive_execution_engi.Value.{Value}
use cognitive_execution_engi.Outcome.{ok}
use cognitive_execution_engi.EventLog.{EventLog}
use cognitive_execution_engi.Hypotheses.Router.{RoutingSignals, default_config, route}
use cognitive_execution_engi.Hypotheses.Routes.{is_auto, asks_evidence, weighed, route-decides}
use cognitive_execution_engi.Workflow.Condition.{Python, name, call, constant, none_left, more}
use cognitive_execution_engi.Workflow.{
  Workflow, WorkflowStep, WorkflowResult, WorkflowRunner, RunDraws, StepExecutor, has_failed,
  skipped_result, run,
}
use cognitive_execution_engi.Workflow.Runs.{StopsAt, run-ends}
use cognitive_execution_engi.Workflow.Skips.{forbidding, no_step, and_step, run-AllBarred}
use cognitive_execution_engi.Workflow.Forbidden.{named, import_name, in_function}
use cognitive_execution_engi.Examples.{fixed_point, commitment_record}

-- reads every text as `__import__(…)`, and compares nothing as equal
abbrev python : Python ℕ
python = record {
  parse = λ s. some (call (name "__import__") (more (constant (Value.str s)) none_left) none_left);
  compares = λ op left right. ok false;
}

-- a step fails if its action is `fail`
abbrev counting_executor : StepExecutor ℕ ℕ
counting_executor step variables (es, n) = (
  ok (record {
    step_id = step.step_id;
    status = if step.action == "fail" then "failed" else "succeeded";
    output = Value.null;
    error_message = "the step failed";
    execution_time_ms = 0;
    variables = Value.end;
  }),
  (es, n + 1),
)

abbrev runner : WorkflowRunner ℕ ℕ
runner = record { step_executor = counting_executor; has_log = true; stop_on_error = true }

abbrev step_of : String → WorkflowStep ℕ
step_of action = record {
  step_id = "s1";
  name = "a step";
  action = action;
  inputs = Value.end;
  outputs = [];
  condition = none;
  timeout_seconds = 0;
  retry_count = 0;
  metadata = Value.end;
}

abbrev workflow : Workflow ℕ
workflow = record {
  name = "doors";
  steps = step_of "open" ∷ step_of "fail" ∷ step_of "close" ∷ [];
  metadata = Value.end;
  workflow_id = "wf_1";
}

abbrev injected : Workflow ℕ
injected = record workflow {
  steps = record (step_of "open") { condition = some "__import__('os')" } ∷ [];
}

abbrev run_draws : RunDraws ℕ
run_draws = record { trace_ids = λ i. "tr_1"; times = λ i. "2026-01-01"; elapsed = 0 }

abbrev old_log : EventLog ℕ
old_log = commitment_record ∷ []

run-ends_example :
    (result : WorkflowResult ℕ) × (s' : EventLog ℕ × ℕ) × (run python runner run_draws workflow none
        (old_log, 7)
      ≡ (ok result, s'))
    × (((result.status ≡ "succeeded")
          × (length result.step_results ≡ length workflow.steps)
          × (runner.stop_on_error ≡ true → any has_failed result.step_results ≡ false))
        ⊎ ((result.status ≡ "failed")
            × (runner.stop_on_error ≡ true)
            × (length result.step_results ≤ length workflow.steps)
            × StopsAt result.step_results result.error_message))
run-ends_example =
    run-ends python runner run_draws (λ step vs s. (_, _, refl)) workflow none (old_log, 7)

run-AllBarred_example :
    (result : WorkflowResult ℕ) × (es' : EventLog ℕ) × (run python runner run_draws injected none
        (old_log, 7)
      ≡ (ok result, (es', 7)))
    × (result.step_results ≡ map skipped_result injected.steps)
    × (result.variables ≡ or_else none Value.end)
    × (result.status ≡ "succeeded")
run-AllBarred_example =
    run-AllBarred python runner run_draws injected none old_log 7 (
      and_step (forbidding "__import__('os')" _ refl refl (in_function (named import_name)))
        no_step)

abbrev signals : RoutingSignals ℕ
signals = record {
  evidence_coverage = 9000;
  precedent_similarity = 8000;
  tool_risk_level = "low";
  historical_success_rate = 9000;
  model_self_confidence = 9000;
}

route-decides_example :
    let result = route default_config signals in
    let critical = signals.tool_risk_level == "critical" in
    let scarce = ltb signals.evidence_coverage default_config.min_evidence_for_review in
    (is_auto result.decision ≡ (
      not critical
      && not (signals.tool_risk_level == "high")
      && not scarce
      && leb default_config.min_combined_confidence (weighed default_config signals)))
    × (asks_evidence result.decision ≡ (not critical && scarce))
    × (result.confidence ≡ weighed default_config signals)
route-decides_example = route-decides default_config signals
