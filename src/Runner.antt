-- ===== src/Runner.antt =====
-- src/cee_core/tool_runner.py: the runner of read tools. As in the gateway, a handler acts on a world
-- and the state is the log with the world; the log is optional. The proofs are in `ReadOnly`.
pub mod ReadOnly
use cognitive_execution_engi.Prelude.{
  String, ◌==◌, Bool, true, false, not, List, [], ◌∷◌, ◌++◌, Option, none, some, ◌<>◌, is_some,
  if◌then◌else◌,
}
use cognitive_execution_engi.Value.{Platform}
use cognitive_execution_engi.Outcome.{Outcome, ok, raise, value_error}
use cognitive_execution_engi.Exec.{Exec, return, ◌>>=◌, ◌>>◌}
use cognitive_execution_engi.Tools.{
  ToolRegistry, ToolSpec, ToolRisk, read, ToolCallSpec, ToolResultEvent, ToolVerdict, allow, get,
  evaluate_tool_call_policy, verdict_text,
}
use cognitive_execution_engi.EventLog.{EventLog, EventRecord}
use cognitive_execution_engi.Gateway.{ToolHandler, find_handler, failure, run_handler, log, outside}

pub record ReadOnlyRunner (F W : Type 0) : Type 0 where
  pub registry : ToolRegistry F
  pub handlers : List (String × ToolHandler F W)

-- `tool.risk == "read"`
abbrev pub is_read : ToolRisk → Bool
is_read read = true
is_read _ = false

module _ {F W : Type 0} where
  add_handler :
      Option (ToolSpec F)
      → String
      → ToolHandler F W
      → ReadOnlyRunner F W
      → Outcome (ReadOnlyRunner F W)
  unfolding find_handler
  add_handler none name handler runner =
      raise (value_error ("Cannot register handler for unknown tool: " <> name))
  add_handler (some tool) name handler runner =
      if not (is_read tool.risk)
      then raise (value_error ("Cannot register read-only handler for non-read tool: " <> name))
      else if is_some (find_handler runner.handlers name)
      then raise (value_error ("Handler already registered for tool: " <> name))
      else ok (record runner { handlers = runner.handlers ++ (name, handler) ∷ [] })

  -- `InMemoryReadOnlyToolRunner.register_handler`
  unfoldable pub register_handler :
      String → ToolHandler F W → ReadOnlyRunner F W → Outcome (ReadOnlyRunner F W)
  unfolding add_handler
  register_handler name handler runner = add_handler (get runner.registry name) name handler runner

  -- `event_log.append`, if a log is given
  unfoldable pub log_result : Bool → ToolResultEvent F → Exec (EventLog F × W) (ToolResultEvent F)
  unfolding log
  log_result false e = return e
  log_result true e = do log (EventRecord.tool_result e); return e

  unfoldable pub run_verdict :
      ToolVerdict
      → ReadOnlyRunner F W
      → Bool
      → ToolCallSpec F
      → Exec (EventLog F × W) (ToolResultEvent F)
  unfolding find_handler run_handler outside log_result failure verdict_text
  run_verdict allow runner logged call = do
    e ← outside (run_handler call (find_handler runner.handlers call.tool_name))
    log_result logged e
  run_verdict verdict runner logged call =
      log_result logged (failure call ("tool policy blocked execution: " <> verdict_text verdict))

  -- `InMemoryReadOnlyToolRunner.run`; the flag tells whether a log is given
  unfoldable pub run :
      ReadOnlyRunner F W → Bool → ToolCallSpec F → Exec (EventLog F × W) (ToolResultEvent F)
  unfolding run_verdict
  run runner logged call =
      run_verdict (evaluate_tool_call_policy call runner.registry).verdict runner logged call
