-- ===== src/Workflow/Runs.antt =====
-- src/cee_core/workflow.py: how the run of a workflow ends, for an executor that always returns.
use cognitive_execution_engi.Prelude.{
  ℕ, suc, ◌+◌, ◌≤◌, String, ◌≡◌, refl, ap, ◌⊎◌, inl, inr, Bool, true, false, List, [], ◌∷◌, ◌++◌,
  any, length, Option, none, some, or_else, arith,
}
use cognitive_execution_engi.Value.{Entries, Platform, end}
use cognitive_execution_engi.Outcome.{ok}
use cognitive_execution_engi.Exec.{Exec}
use cognitive_execution_engi.EventLog.{EventLog, EventRecord}
use cognitive_execution_engi.Gateway.{log}
use cognitive_execution_engi.Workflow.Condition.{Python}
use cognitive_execution_engi.Workflow.{
  Workflow, WorkflowStep, StepResult, WorkflowResult, WorkflowRunner, RunDraws, LoopEnd, through,
  stopped, with_result, has_failed, has_succeeded, skipped_result, skips, log_if, after_step,
  one_step, run_steps, finish, run, update, skipped_event, started_event, completed_event,
}

module _ {F : Type 0} where
  -- The results end with the first one that failed, whose message is given.
  pub record StopsAt (results : List (StepResult F)) (message : String) : Type 0 where
    pub before : List (StepResult F)
    pub bad : StepResult F
    pub all_results : results ≡ before ++ bad ∷ []
    pub none_before : any has_failed before ≡ false
    pub failed_last : has_failed bad ≡ true
    pub reported : message ≡ bad.error_message

  -- what holds of the end of a loop over `n` steps
  Shape : Bool → ℕ → LoopEnd F → Type 0
  Shape stop n (through rs vs) = (length rs ≡ n) × (stop ≡ true → any has_failed rs ≡ false)
  Shape stop n (stopped rs vs message) = (stop ≡ true) × (length rs ≤ n) × StopsAt rs message

  with_result-Shape :
      (stop : Bool) (n : ℕ) (r : StepResult F) (e : LoopEnd F)
      → (stop ≡ true → has_failed r ≡ false)
      → Shape stop n e
      → Shape stop (suc n) (with_result r e)
  unfolding Shape with_result
  with_result-Shape stop n r (through rs vs) h (count, fine) =
      (ap suc count, λ s. ground (arith, h s, fine s))
  with_result-Shape stop n r (stopped rs vs message) h (s, count, at) = (
    s,
    omega arith,
    record {
      before = r ∷ at.before;
      bad = at.bad;
      all_results = ap (λ l. r ∷ l) at.all_results;
      none_before = ground (arith, h s, at.none_before);
      failed_last = at.failed_last;
      reported = at.reported;
    },
  )

  stops_here :
      (n : ℕ) (r : StepResult F) (vs : Entries F)
      → has_failed r ≡ true
      → Shape true (suc n) (stopped (r ∷ []) vs r.error_message)
  unfolding Shape
  stops_here n r vs k = (
    refl,
    omega arith,
    record {
      before = [];
      bad = r;
      all_results = refl;
      none_before = refl;
      failed_last = k;
      reported = refl;
    },
  )

module _ {F W : Type 0} ⦃p : Platform F⦄ where
  -- the loop returns from any state, in the shape
  Ends : Bool → ℕ → Exec (EventLog F × W) (LoopEnd F) → Type 0
  Ends stop n m =
      (s : EventLog F × W)
      → (e : LoopEnd F) × (s' : EventLog F × W) × (m s ≡ (ok e, s')) × Shape stop n e

  log_if-returns :
      (b : Bool) (e : EventRecord F) (s : EventLog F × W)
      → (s' : EventLog F × W) × (log_if b e s ≡ (ok tt, s'))
  unfolding log_if log
  log_if-returns true e (es, w) = (_, refl)
  log_if-returns false e (es, w) = (_, refl)

  finish-Shape :
      (runner : WorkflowRunner F W) (draws : RunDraws F) (workflow : Workflow F) (e : LoopEnd F)
      (s : EventLog F × W)
      → Shape runner.stop_on_error (length workflow.steps) e
      → (result : WorkflowResult F) × (s' : EventLog F × W) × (finish runner draws workflow e s
          ≡ (ok result, s'))
        × (((result.status ≡ "succeeded")
              × (length result.step_results ≡ length workflow.steps)
              × (runner.stop_on_error ≡ true → any has_failed result.step_results ≡ false))
            ⊎ ((result.status ≡ "failed")
                × (runner.stop_on_error ≡ true)
                × (length result.step_results ≤ length workflow.steps)
                × StopsAt result.step_results result.error_message))
  unfolding finish Shape
  finish-Shape runner draws workflow (stopped rs vs message) s (stop, count, at) =
      (_, s, refl, inr (refl, stop, count, at))
  finish-Shape runner draws workflow (through rs vs) s (count, fine) =
      let (s', logged) =
        log_if-returns runner.has_log
          (completed_event draws (length workflow.steps + 1) workflow rs) s in
      (
        record {
          workflow_id = workflow.workflow_id;
          status = "succeeded";
          step_results = rs;
          variables = vs;
          total_execution_time_ms = draws.elapsed;
          error_message = "";
        },
        s',
        rw logged refl,
        inl (refl, count, fine),
      )

  after_step-Ends :
      (b c stop : Bool) (n : ℕ) (r : StepResult F) (vs : Entries F)
      (rest : Entries F → Exec (EventLog F × W) (LoopEnd F))
      → has_succeeded r ≡ b
      → has_failed r ≡ c
      → ((ws : Entries F) → Ends stop n (rest ws))
      → Ends stop (suc n) (after_step b c stop r vs rest)
  unfolding after_step Ends update
  after_step-Ends true c stop n r vs rest h k ends s =
      let (e, s', ran, shape) = ends (update vs r.variables) s in
      (
        with_result r e,
        s',
        rw ran refl,
        with_result-Shape stop n r e (λ t. ground (arith, h)) shape,
      )
  after_step-Ends false false stop n r vs rest h k ends s =
      let (e, s', ran, shape) = ends vs s in
      (with_result r e, s', rw ran refl, with_result-Shape stop n r e (λ t. k) shape)
  after_step-Ends false true false n r vs rest h k ends s =
      let (e, s', ran, shape) = ends vs s in
      (with_result r e, s', rw ran refl, with_result-Shape false n r e (λ t. absurd (cc)) shape)
  after_step-Ends false true true n r vs rest h k ends s =
      (stopped (r ∷ []) vs r.error_message, s, refl, stops_here n r vs k)

  one_step-Ends :
      (condition : Option String) (runner : WorkflowRunner F W) (draws : RunDraws F) (i n : ℕ)
      (step : WorkflowStep F) (vs : Entries F)
      (rest : Entries F → Exec (EventLog F × W) (LoopEnd F))
      → ((ws : Entries F) (s : EventLog F × W)
          → (r : StepResult F) × (s' : EventLog F × W) × (runner.step_executor step ws s
              ≡ (ok r, s')))
      → ((ws : Entries F) → Ends runner.stop_on_error n (rest ws))
      → Ends runner.stop_on_error (suc n) (one_step condition runner draws i step vs rest)
  unfolding one_step Ends
  one_step-Ends (some condition) runner draws i n step vs rest returns ends s =
      let (s1, logged) = log_if-returns runner.has_log (skipped_event draws i step condition) s in
      let (e, s', ran, shape) = ends vs s1 in
      (
        with_result (skipped_result step) e,
        s',
        rw (logged, ran) refl,
        with_result-Shape runner.stop_on_error n (skipped_result step) e (λ t. refl) shape,
      )
  one_step-Ends none runner draws i n step vs rest returns ends s =
      let (r, s1, ran) = returns vs s in
      let (e, s', after, shape) =
        after_step-Ends (has_succeeded r) (has_failed r) runner.stop_on_error n r vs rest refl refl
          ends s1 in
      (e, s', rw ran after, shape)

  module _ (python : Python F) (runner : WorkflowRunner F W) (draws : RunDraws F)
      (returns : (step : WorkflowStep F) (vs : Entries F) (s : EventLog F × W)
        → (r : StepResult F) × (s' : EventLog F × W) × (runner.step_executor step vs s
            ≡ (ok r, s'))) where
    run_steps-Ends :
        (i : ℕ) (steps : List (WorkflowStep F)) (vs : Entries F)
        → Ends runner.stop_on_error (length steps) (run_steps python runner draws i steps vs)
    unfolding run_steps Ends Shape
    run_steps-Ends i [] vs s = (through [] vs, s, refl, (refl, λ t. refl))
    run_steps-Ends i (step ∷ steps) vs s =
        one_step-Ends (skips python step vs) runner draws i (length steps) step vs
          (λ ws. run_steps python runner draws (i + 1) steps ws) (returns step)
          (λ ws. run_steps-Ends (i + 1) steps ws) s

    -- Where the step executor always returns, so does the run. Either it succeeded, with one result for
    -- each step, and, if it is to stop on errors, none of them failed; or it is to stop on errors and
    -- failed, its results end with the first step that failed, and its message is that step's.
    pub run-ends :
        (workflow : Workflow F) (initial : Option (Entries F)) (s : EventLog F × W)
        → (result : WorkflowResult F) × (s' : EventLog F × W) × (run python runner draws workflow
              initial s
            ≡ (ok result, s'))
          × (((result.status ≡ "succeeded")
                × (length result.step_results ≡ length workflow.steps)
                × (runner.stop_on_error ≡ true → any has_failed result.step_results ≡ false))
              ⊎ ((result.status ≡ "failed")
                  × (runner.stop_on_error ≡ true)
                  × (length result.step_results ≤ length workflow.steps)
                  × StopsAt result.step_results result.error_message))
    unfolding run Ends
    run-ends workflow initial s =
        let (s1, logged) = log_if-returns runner.has_log (started_event draws workflow) s in
        let (e, s2, ran, shape) = run_steps-Ends 1 workflow.steps (or_else initial end) s1 in
        let (result, s3, done, outcome) = finish-Shape runner draws workflow e s2 shape in
        (result, s3, rw (logged, ran) done, outcome)
