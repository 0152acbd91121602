-- ===== src/Task/Compile.antt =====
-- src/cee_core/tasks.py: `compile_task` and `classify_task_level`. The ids and times that are drawn
-- are arguments.
use cognitive_execution_engi.Prelude.{
  String, Bool, true, false, not, ◌||◌, List, [], ◌∷◌, map, ◌<>◌, truthy, any, is_space,
  if◌then◌else◌,
}
use cognitive_execution_engi.Value
use cognitive_execution_engi.Value.{Value, of_list}
use cognitive_execution_engi.Outcome.{value_error}
use cognitive_execution_engi.Exec.{Exec, return, throw, lift, ◌>>=◌, ◌>>◌}
use cognitive_execution_engi.EventLog.{EventLog, EventRecord, append}
use cognitive_execution_engi.Primitives.{default_primitives_for_task_kind}
use cognitive_execution_engi.Task.{
  TaskSpec, TaskKind, RiskLevel, analysis, state_update, low, medium, high, kind_text, level_text,
  occurs_lower,
}

-- the word, unless it is empty, before the others
abbrev pub with_word : String → List String → List String
with_word w ws = if truthy w then w ∷ ws else ws

-- the letters before the first space, and the words behind it
unfoldable pub split_from : String → String × List String
split_from String.[] = ("", [])
split_from (String.◌∷◌ c s) =
    let (w, ws) = split_from s in if is_space c then ("", with_word w ws) else (String.◌∷◌ c w, ws)

-- `s.split()`, which is also `s.strip().split()`
unfoldable pub split_words : String → List String
unfolding split_from
split_words s = let (w, ws) = split_from s in with_word w ws

-- `" ".join(words)`
unfoldable pub spaced : List String → String
spaced [] = ""
spaced (w ∷ []) = w
spaced (w ∷ v ∷ ws) = w <> " " <> spaced (v ∷ ws)

unfoldable pub normalized : String → String
unfolding split_words spaced
normalized raw = spaced (split_words raw)

abbrev pub update_tokens : List String
update_tokens = "update" ∷ "set" ∷ "write" ∷ "修改" ∷ "写入" ∷ "更新" ∷ []

abbrev pub l4_tokens : List String
l4_tokens = "governance" ∷ "release" ∷ "production" ∷ "approval" ∷ "authorize" ∷ []

abbrev pub l3_tokens : List String
l3_tokens =
    "migrate" ∷ "migration" ∷ "cross-session" ∷ "cross domain" ∷ "cross-domain" ∷ "coordinate"
    ∷ "orchestrate" ∷ "plugin" ∷ "domain" ∷ []

abbrev pub l0_tokens : List String
l0_tokens = "read" ∷ "search" ∷ "lookup" ∷ "look up" ∷ "inspect" ∷ "check" ∷ "show" ∷ "list" ∷ []

-- `any(token in text.lower() for token in tokens)`
unfoldable pub mentions : List String → String → Bool
unfolding occurs_lower
mentions tokens text = any (λ token. occurs_lower token text) tokens

abbrev pub is_high : RiskLevel → Bool
is_high high = true
is_high _ = false

abbrev pub is_medium : RiskLevel → Bool
is_medium medium = true
is_medium _ = false

abbrev pub is_update : TaskKind → Bool
is_update state_update = true
is_update _ = false

-- The last test of the source gives L1 on both branches.
unfoldable pub classify_task_level : String → TaskKind → RiskLevel → String
unfolding mentions
classify_task_level objective kind risk =
    if is_high risk
    then "L4"
    else if mentions l4_tokens objective
    then "L4"
    else if mentions l3_tokens objective
    then "L3"
    else if is_update kind || is_medium risk
    then "L2"
    else if mentions l0_tokens objective
    then "L0"
    else "L1"

-- what a compilation draws
pub record TaskDraws : Type 0 where
  pub task_id : String
  pub trace_id : String
  pub created_at : String

abbrev pub kind_of_text : Bool → TaskKind
kind_of_text true = state_update
kind_of_text false = analysis

abbrev pub risk_of_text : Bool → RiskLevel
risk_of_text true = medium
risk_of_text false = low

unfoldable pub task_spec : TaskDraws → String → String → String → Bool → List String → TaskSpec
unfolding classify_task_level
task_spec draws raw domain objective updates primitives = record {
  objective = objective;
  kind = kind_of_text updates;
  success_criteria =
      "task is represented as structured state" ∷ "planner receives TaskSpec, not raw user input"
      ∷ "policy evaluates every proposed mutation" ∷ [];
  requested_primitives = primitives;
  risk_level = risk_of_text updates;
  task_level = classify_task_level objective (kind_of_text updates) (risk_of_text updates);
  task_id = draws.task_id;
  raw_input = raw;
  domain_name = domain;
}

module _ {F : Type 0} where
  -- the event "task.received"
  unfoldable pub received : TaskDraws → TaskSpec → EventRecord F
  unfolding kind_text level_text of_list
  received draws task = EventRecord.event (record {
    event_type = "task.received";
    payload = Value.entry "task_id" (Value.str task.task_id) (
        Value.entry "domain_name" (Value.str task.domain_name) (
          Value.entry "kind" (Value.str (kind_text task.kind)) (
            Value.entry "risk_level" (Value.str (level_text task.risk_level)) (
              Value.entry "task_level" (Value.str task.task_level) (
                Value.entry "objective" (Value.str task.objective) (
                  Value.entry "requested_primitives"
                    (Value.list (of_list (map (λ s. Value.str s) task.requested_primitives)))
                    Value.end))))));
    trace_id = draws.trace_id;
    created_at = draws.created_at;
    actor = "task_compiler";
  })

  -- the append, if there is a log
  unfoldable pub log_received : Bool → TaskDraws → TaskSpec → Exec (EventLog F) (Unit {0})
  unfolding append received
  log_received false draws task = return tt
  log_received true draws task = append (received draws task)

  -- the task of an objective that updates, or does not
  unfoldable pub compile_objective :
      Bool → TaskDraws → String → String → String → Bool → Exec (EventLog F) TaskSpec
  unfolding default_primitives_for_task_kind task_spec log_received kind_text
  compile_objective has_log draws raw domain objective updates = do
    primitives ← lift (default_primitives_for_task_kind (kind_text (kind_of_text updates)))
    let task = task_spec draws raw domain objective updates primitives
    log_received has_log draws task
    return task

  unfoldable pub compile_task : Bool → TaskDraws → String → String → Exec (EventLog F) TaskSpec
  unfolding normalized mentions compile_objective
  compile_task has_log draws raw domain =
      let objective = normalized raw in
      if not (truthy objective)
      then throw (value_error "raw_input cannot be empty")
      else compile_objective has_log draws raw domain objective (mentions update_tokens objective)
