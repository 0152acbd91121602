-- ===== src/Runner/ReadOnly.antt =====
-- The runner of read tools has handlers of read tools only, and runs nothing else.
use cognitive_execution_engi.Prelude.{
  String, ◌≡◌, refl, ◌∙◌, ◌&&◌, Bool, true, false, List, [], ◌∷◌, ◌++◌, Option, none, some,
  if◌then◌else◌, arith,
}
use cognitive_execution_engi.Value.{Value}
use cognitive_execution_engi.Outcome.{Outcome, ok}
use cognitive_execution_engi.Tools.{
  ToolRegistry, ToolSpec, ToolCallSpec, ToolResultEvent, ToolVerdict, allow, deny,
  requires_approval, failed, get, evaluate_tool_call_policy,
}
use cognitive_execution_engi.EventLog.{EventLog, EventRecord}
use cognitive_execution_engi.Gateway.{
  ToolHandler, find_handler, run_handler, outside, log, failure, result_of,
}
use cognitive_execution_engi.Gateway.Access.{is_read_tool}
use cognitive_execution_engi.Runner.{
  ReadOnlyRunner, add_handler, register_handler, run, run_verdict, log_result,
}

module _ {F W : Type 0} where
  -- every handler is of a tool that is registered as a read tool
  unfoldable pub all_read : ToolRegistry F → List (String × ToolHandler F W) → Bool
  all_read tools [] = true
  all_read tools ((name, handler) ∷ handlers) =
      is_read_tool (get tools name) && all_read tools handlers

  all_read-append :
      (tools : ToolRegistry F) (hs : List (String × ToolHandler F W)) (name : String)
      (handler : ToolHandler F W)
      → all_read tools (hs ++ (name, handler) ∷ [])
        ≡ (all_read tools hs && is_read_tool (get tools name))
  unfolding all_read
  all_read-append tools [] name handler = ground arith
  all_read-append tools (h ∷ hs) name handler =
      ground (arith, all_read-append tools hs name handler)

  add_handler-all_read :
      (tool : Option (ToolSpec F)) (name : String) (handler : ToolHandler F W)
      (runner next : ReadOnlyRunner F W)
      → add_handler tool name handler runner ≡ ok next
      → (is_read_tool tool ≡ true)
        × (next ≡ record runner { handlers = runner.handlers ++ (name, handler) ∷ [] })
  unfolding add_handler
  add_handler-all_read none name handler runner next r = cc
  add_handler-all_read (some tool) name handler runner next r = (ground arith, ground arith)

  -- Registering a handler keeps the registry, and where every handler was of a registered read tool,
  -- this holds of the new runner too.
  register_handler-all_read :
      (name : String) (handler : ToolHandler F W) (runner next : ReadOnlyRunner F W)
      → all_read runner.registry runner.handlers ≡ true
      → register_handler name handler runner ≡ ok next
      → (next.registry ≡ runner.registry) × (all_read next.registry next.handlers ≡ true)
  unfolding register_handler
  register_handler-all_read name handler runner next h r =
      let (reads, added) =
        add_handler-all_read (get runner.registry name) name handler runner next r in
      rw added
        (refl, all_read-append runner.registry runner.handlers name handler ∙ rw (h, reads) refl)

  run_verdict-blocked :
      (verdict : ToolVerdict) (runner : ReadOnlyRunner F W) (logged : Bool) (call : ToolCallSpec F)
      (es : EventLog F) (w : W)
      → ¬ (verdict ≡ allow)
      → (t : ToolResultEvent F) × (run_verdict verdict runner logged call (es, w)
          ≡ (ok t, ((if logged then es ++ EventRecord.tool_result t ∷ [] else es), w)))
        × (t.status ≡ failed)
  unfolding run_verdict log_result log failure
  run_verdict-blocked allow runner logged call es w h = absurd (h refl)
  run_verdict-blocked deny runner true call es w h = (_, refl, refl)
  run_verdict-blocked deny runner false call es w h = (_, refl, refl)
  run_verdict-blocked requires_approval runner true call es w h = (_, refl, refl)
  run_verdict-blocked requires_approval runner false call es w h = (_, refl, refl)

  -- A call that the policy does not allow reaches no handler: the runner returns a failed result, the
  -- world is as before, and the result is the one new record of the log, if a log is given.
  run-blocked :
      (runner : ReadOnlyRunner F W) (logged : Bool) (call : ToolCallSpec F) (es : EventLog F)
      (w : W)
      → ¬ ((evaluate_tool_call_policy call runner.registry).verdict ≡ allow)
      → (t : ToolResultEvent F) × (run runner logged call (es, w)
          ≡ (ok t, ((if logged then es ++ EventRecord.tool_result t ∷ [] else es), w)))
        × (t.status ≡ failed)
  unfolding run
  run-blocked runner logged call es w h = run_verdict-blocked _ runner logged call es w h

  log_result_lem :
      (logged : Bool) (t : ToolResultEvent F) (es : EventLog F) (w : W)
      → log_result logged t (es, w)
        ≡ (ok t, ((if logged then es ++ EventRecord.tool_result t ∷ [] else es), w))
  unfolding log_result log
  log_result_lem true t es w = refl
  log_result_lem false t es w = refl

  -- An allowed call with a handler returns, also where the handler raises: the result has the value,
  -- or is failed with the text of the exception, the world is the handler's, and the result is the
  -- one new record of the log, if a log is given.
  pub run-allowed :
      (runner : ReadOnlyRunner F W) (logged : Bool) (call : ToolCallSpec F)
      (handler : ToolHandler F W) (r : Outcome (Value F)) (es : EventLog F) (w w' : W)
      → (evaluate_tool_call_policy call runner.registry).verdict ≡ allow
      → find_handler runner.handlers call.tool_name ≡ some handler
      → handler call.arguments w ≡ (r, w')
      → let t = result_of call r in
        run runner logged call (es, w)
        ≡ (ok t, ((if logged then es ++ EventRecord.tool_result t ∷ [] else es), w'))
  unfolding run run_verdict outside run_handler
  run-allowed runner logged call handler r es w w' allowed found ran =
      rw (allowed, found, ran) (log_result_lem logged (result_of call r) es w')
