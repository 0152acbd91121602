-- ===== src/Workflow/Skips.antt =====
-- src/cee_core/workflow.py: steps whose condition cannot be read, or is not safe, are not executed.
use cognitive_execution_engi.Prelude.{
  ℕ, ◌+◌, String, ◌≡◌, refl, Bool, true, false, List, [], ◌∷◌, map, length, Option, none, some,
  or_else,
}
use cognitive_execution_engi.Value.{Entries, Platform, end}
use cognitive_execution_engi.Outcome.{ok}
use cognitive_execution_engi.EventLog.{EventLog, EventRecord}
use cognitive_execution_engi.Gateway.{log}
use cognitive_execution_engi.Workflow.Condition.{Python, Expr, evaluate_condition}
use cognitive_execution_engi.Workflow.Forbidden.{Unsafe, is_node_safe-Unsafe}
use cognitive_execution_engi.Workflow.{
  Workflow, WorkflowStep, WorkflowResult, WorkflowRunner, RunDraws, through, with_result,
  skipped_result, skips, log_if, run_steps, finish, run, skipped_event, started_event,
  completed_event,
}

module _ {F : Type 0} where
  -- The step has a condition whose text is no expression, or is one with a forbidden name in it.
  pub data Barred (python : Python F) (step : WorkflowStep F) : Type 0 where
    unreadable :
        (condition : String)
        → step.condition ≡ some condition
        → python.parse condition ≡ none
        → Barred python step
    forbidding :
        (condition : String) (tree : Expr F)
        → step.condition ≡ some condition
        → python.parse condition ≡ some tree
        → Unsafe tree
        → Barred python step

  -- all steps are barred
  pub data AllBarred (python : Python F) : List (WorkflowStep F) → Type 0 where
    no_step : AllBarred python []
    and_step :
        {step : WorkflowStep F} {steps : List (WorkflowStep F)}
        → Barred python step
        → AllBarred python steps
        → AllBarred python (step ∷ steps)

module _ {F : Type 0} ⦃p : Platform F⦄ where
  -- A step whose condition is false is skipped.
  skips-false :
      (python : Python F) (step : WorkflowStep F) (vs : Entries F) (condition : String)
      → step.condition ≡ some condition
      → evaluate_condition python condition vs ≡ false
      → skips python step vs ≡ some condition
  unfolding skips
  skips-false python step vs condition h fails = rw (h, fails) refl

  skips-Barred :
      (python : Python F) (step : WorkflowStep F) (vs : Entries F)
      → Barred python step
      → (condition : String) × (skips python step vs ≡ some condition)
  unfolding evaluate_condition
  skips-Barred python step vs (unreadable condition h unread) =
      (condition, skips-false python step vs condition h (rw (evaluate_condition, unread) refl))
  skips-Barred python step vs (forbidding condition tree h read unsafe) = (
    condition,
    skips-false python step vs condition h
        (rw (evaluate_condition, read, is_node_safe-Unsafe tree unsafe) refl),
  )

module _ {F W : Type 0} ⦃p : Platform F⦄ where
  log_if-same_world :
      (b : Bool) (e : EventRecord F) (es : EventLog F) (w : W)
      → (es' : EventLog F) × (log_if b e (es, w) ≡ (ok tt, (es', w)))
  unfolding log_if log
  log_if-same_world true e es w = (_, refl)
  log_if-same_world false e es w = (_, refl)

  run_steps-AllBarred :
      (python : Python F) (runner : WorkflowRunner F W) (draws : RunDraws F) (i : ℕ)
      (steps : List (WorkflowStep F)) (vs : Entries F) (es : EventLog F) (w : W)
      → AllBarred python steps
      → (es' : EventLog F) × (run_steps python runner draws i steps vs (es, w)
          ≡ (ok (through (map skipped_result steps) vs), (es', w)))
  unfolding run_steps with_result
  run_steps-AllBarred python runner draws i _ vs es w no_step = (es, refl)
  run_steps-AllBarred python runner draws i (step ∷ steps) vs es w (and_step barred others) =
      let (condition, skipped) = skips-Barred python step vs barred in
      let (es1, logged) =
        log_if-same_world runner.has_log (skipped_event draws i step condition) es w in
      let (es2, ran) = run_steps-AllBarred python runner draws (i + 1) steps vs es1 w others in
      (es2, rw (skipped, logged, ran) refl)

  -- A workflow whose steps all have a condition that is no expression, or has in it, at any depth, one
  -- of the nine forbidden names or a name or attribute with two underscores in a row, runs through without executing anything, whatever the variables are: every step is skipped, the world and
  -- the variables are as before, and the run has succeeded.
  pub run-AllBarred :
      (python : Python F) (runner : WorkflowRunner F W) (draws : RunDraws F) (workflow : Workflow F)
      (initial : Option (Entries F)) (es : EventLog F) (w : W)
      → AllBarred python workflow.steps
      → (result : WorkflowResult F) × (es' : EventLog F) × (run python runner draws workflow initial
            (es, w)
          ≡ (ok result, (es', w)))
        × (result.step_results ≡ map skipped_result workflow.steps)
        × (result.variables ≡ or_else initial end)
        × (result.status ≡ "succeeded")
  unfolding run finish
  run-AllBarred python runner draws workflow initial es w h =
      let (es1, started) = log_if-same_world runner.has_log (started_event draws workflow) es w in
      let (es2, ran) =
        run_steps-AllBarred python runner draws 1 workflow.steps (or_else initial end) es1 w h in
      let (es3, done) =
        log_if-same_world runner.has_log
          (completed_event draws (length workflow.steps + 1) workflow
            (map skipped_result workflow.steps))
          es2 w in
      (
        record {
          workflow_id = workflow.workflow_id;
          status = "succeeded";
          step_results = map skipped_result workflow.steps;
          variables = or_else initial end;
          total_execution_time_ms = draws.elapsed;
          error_message = "";
        },
        es3,
        rw (started, ran, done) refl,
        refl,
        refl,
        refl,
      )
