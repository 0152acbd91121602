-- ===== src/Workflow.antt =====
-- src/cee_core/workflow.py: the steps of a workflow and its runner. The step executor acts on the log and on
-- a world and may raise; the runner has no observer. The generated trace ids, times and the elapsed time
-- are arguments. `Condition` evaluates the conditions; the proofs are in `Runs` and `Skips`.
pub mod Condition
pub mod Runs
pub mod Forbidden
pub mod Skips
use cognitive_execution_engi.Prelude.{
  ℕ, ◌+◌, String, ◌==◌, Bool, true, false, not, ◌&&◌, List, [], ◌∷◌, ◌++◌, length, Option, none,
  some, or_else, pos, if◌then◌else◌,
}
use cognitive_execution_engi.Value
use cognitive_execution_engi.Value.{Value, Entries, Platform, end, entry}
use cognitive_execution_engi.Exec.{Exec, return, ◌>>=◌, ◌>>◌}
use cognitive_execution_engi.EventLog.{EventLog, EventRecord}
use cognitive_execution_engi.Gateway.{log}
use cognitive_execution_engi.Serial.{dict_of}
use cognitive_execution_engi.Workflow.Condition.{Python, evaluate_condition}

pub record WorkflowStep (F : Type 0) : Type 0 where
  pub step_id : String
  pub name : String
  pub action : String
  pub inputs : Entries F
  pub outputs : List String
  pub condition : Option String
  pub timeout_seconds : F
  pub retry_count : ℕ
  pub metadata : Entries F

pub record Workflow (F : Type 0) : Type 0 where
  pub name : String
  pub steps : List (WorkflowStep F)
  pub metadata : Entries F
  pub workflow_id : String

pub record StepResult (F : Type 0) : Type 0 where
  pub step_id : String
  pub status : String
  pub output : Value F
  pub error_message : String
  pub execution_time_ms : F
  pub variables : Entries F

pub record WorkflowResult (F : Type 0) : Type 0 where
  pub workflow_id : String
  pub status : String
  pub step_results : List (StepResult F)
  pub variables : Entries F
  pub total_execution_time_ms : F
  pub error_message : String

-- `StepResult.succeeded`
abbrev pub has_succeeded : {F : Type 0} → StepResult F → Bool
has_succeeded r = r.status == "succeeded"

-- the result sets the error path off: neither succeeded nor skipped
abbrev pub has_failed : {F : Type 0} → StepResult F → Bool
has_failed r = not (r.status == "succeeded") && not (r.status == "skipped")

-- `StepExecutor.execute`, with the log and the world
abbrev pub StepExecutor : Type 0 → Type 0 → Type 0
StepExecutor F W = WorkflowStep F → Entries F → Exec (EventLog F × W) (StepResult F)

pub record WorkflowRunner (F W : Type 0) : Type 0 where
  pub step_executor : StepExecutor F W
  pub has_log : Bool
  pub stop_on_error : Bool

-- what a run draws: trace id and time of its event number `i`, and the elapsed time
pub record RunDraws (F : Type 0) : Type 0 where
  pub trace_ids : ℕ → String
  pub times : ℕ → String
  pub elapsed : F

module _ {F : Type 0} where
  -- `variables[k] = v`
  unfoldable pub set_entry : String → Value F → Entries F → Entries F
  set_entry k v end = entry k v end
  set_entry k v (entry j u d) =
      let rest = set_entry k v d in if j == k then entry j v d else entry j u rest

  -- `variables.update(more)`
  unfoldable pub update : Entries F → Entries F → Entries F
  unfolding set_entry
  update variables end = variables
  update variables (entry k v more) = update (set_entry k v variables) more

  abbrev workflow_event : RunDraws F → ℕ → String → Entries F → EventRecord F
  workflow_event draws i event_type payload = EventRecord.event (record {
    event_type = event_type;
    payload = payload;
    trace_id = draws.trace_ids i;
    created_at = draws.times i;
    actor = "workflow_runner";
  })

  unfoldable pub started_event : RunDraws F → Workflow F → EventRecord F
  unfolding dict_of
  started_event draws workflow = workflow_event draws 0 "workflow.started" (
      dict_of (
        ("workflow_id", Value.str workflow.workflow_id)
        ∷ ("workflow_name", Value.str workflow.name)
        ∷ ("step_count", Value.int (pos (length workflow.steps)))
        ∷ []))

  unfoldable pub skipped_event : RunDraws F → ℕ → WorkflowStep F → String → EventRecord F
  unfolding dict_of
  skipped_event draws i step condition = workflow_event draws i "workflow.step.skipped" (
      dict_of (
        ("step_id", Value.str step.step_id)
        ∷ ("step_name", Value.str step.name)
        ∷ ("reason", Value.str "condition_not_met")
        ∷ ("condition", Value.str condition)
        ∷ []))

  unfoldable pub completed_event : RunDraws F → ℕ → Workflow F → List (StepResult F) → EventRecord F
  unfolding dict_of
  completed_event draws i workflow results = workflow_event draws i "workflow.completed" (
      dict_of (
        ("workflow_id", Value.str workflow.workflow_id)
        ∷ ("workflow_name", Value.str workflow.name)
        ∷ ("status", Value.str "succeeded")
        ∷ ("total_execution_time_ms", Value.float draws.elapsed)
        ∷ ("step_count", Value.int (pos (length results)))
        ∷ []))

module _ {F W : Type 0} where
  -- `event_log.append`, if there is a log
  unfoldable pub log_if : Bool → EventRecord F → Exec (EventLog F × W) (Unit {0})
  unfolding log
  log_if true e = log e
  log_if false e = return tt

-- how the loop ends: through, or at a step that failed
pub data LoopEnd (F : Type 0) : Type 0 where
  through : List (StepResult F) → Entries F → LoopEnd F
  stopped : List (StepResult F) → Entries F → String → LoopEnd F

-- a result in front of those of the rest of the loop
unfoldable pub with_result : {F : Type 0} → StepResult F → LoopEnd F → LoopEnd F
with_result r (through rs variables) = through (r ∷ rs) variables
with_result r (stopped rs variables message) = stopped (r ∷ rs) variables message

module _ {F : Type 0} ⦃p : Platform F⦄ where
  abbrev pub skipped_result : WorkflowStep F → StepResult F
  skipped_result step = record {
    step_id = step.step_id;
    status = "skipped";
    output = Value.null;
    error_message = "";
    execution_time_ms = p.decimal 0 0;
    variables = end;
  }

  -- a step whose condition is not met
  unfoldable pub skips : Python F → WorkflowStep F → Entries F → Option String
  skips python step variables = elim step.condition [
    | none ↦ none
    | some condition ↦
        if evaluate_condition python condition variables then none else some condition
  ]

module _ {F W : Type 0} ⦃p : Platform F⦄ where
  -- the branches on the result of a step, where `rest` goes on with the variables
  unfoldable pub after_step :
      Bool
      → Bool
      → Bool
      → StepResult F
      → Entries F
      → (Entries F → Exec (EventLog F × W) (LoopEnd F))
      → Exec (EventLog F × W) (LoopEnd F)
  unfolding with_result update
  after_step true failed stop r variables rest = do
    more ← rest (update variables r.variables)
    return (with_result r more)
  after_step false true true r variables rest = return (stopped (r ∷ []) variables r.error_message)
  after_step false failed stop r variables rest = do
    more ← rest variables
    return (with_result r more)

  -- one step, skipped or executed
  unfoldable pub one_step :
      Option String
      → WorkflowRunner F W
      → RunDraws F
      → ℕ
      → WorkflowStep F
      → Entries F
      → (Entries F → Exec (EventLog F × W) (LoopEnd F))
      → Exec (EventLog F × W) (LoopEnd F)
  unfolding log_if skipped_event with_result after_step
  one_step (some condition) runner draws i step variables rest = do
    log_if runner.has_log (skipped_event draws i step condition)
    more ← rest variables
    return (with_result (skipped_result step) more)
  one_step none runner draws i step variables rest = do
    r ← runner.step_executor step variables
    after_step (has_succeeded r) (has_failed r) runner.stop_on_error r variables rest

  -- the loop over the steps, at step number `i`
  unfoldable pub run_steps :
      Python F
      → WorkflowRunner F W
      → RunDraws F
      → ℕ
      → List (WorkflowStep F)
      → Entries F
      → Exec (EventLog F × W) (LoopEnd F)
  unfolding one_step
  run_steps python runner draws i [] variables = return (through [] variables)
  run_steps python runner draws i (step ∷ steps) variables =
      one_step (skips python step variables) runner draws i step variables
        (λ vs. run_steps python runner draws (i + 1) steps vs)

  -- the end of the run
  unfoldable pub finish :
      WorkflowRunner F W
      → RunDraws F
      → Workflow F
      → LoopEnd F
      → Exec (EventLog F × W) (WorkflowResult F)
  unfolding log_if completed_event
  finish runner draws workflow (stopped results variables message) = return (record {
    workflow_id = workflow.workflow_id;
    status = "failed";
    step_results = results;
    variables = variables;
    total_execution_time_ms = draws.elapsed;
    error_message = message;
  })
  finish runner draws workflow (through results variables) = do
    log_if runner.has_log (completed_event draws (length workflow.steps + 1) workflow results)
    return (record {
      workflow_id = workflow.workflow_id;
      status = "succeeded";
      step_results = results;
      variables = variables;
      total_execution_time_ms = draws.elapsed;
      error_message = "";
    })

  -- `WorkflowRunner.run`, without an observer
  unfoldable pub run :
      Python F
      → WorkflowRunner F W
      → RunDraws F
      → Workflow F
      → Option (Entries F)
      → Exec (EventLog F × W) (WorkflowResult F)
  unfolding log_if started_event run_steps finish
  run python runner draws workflow initial = do
    log_if runner.has_log (started_event draws workflow)
    loop ← run_steps python runner draws 1 workflow.steps (or_else initial end)
    finish runner draws workflow loop
