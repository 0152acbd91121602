-- ===== src/Deliberation.antt =====
-- src/cee_core/deliberation.py: the choice of the next bounded action, and the chain of steps. The
-- generated step ids are a function of the step's number. The proofs are in `Chain`.
pub mod Chain
use cognitive_execution_engi.Prelude.{
  ℕ, zero, suc, ◌+◌, String, Bool, true, false, ◌&&◌, ◌||◌, List, [], ◌∷◌, ◌++◌, Option, none, some,
  ◌<>◌, show, is_some, any, length, last?, ltb, leb, if◌then◌else◌,
}
use cognitive_execution_engi.Task.{
  TaskSpec, TaskKind, kind_text, level_text, is_risky, is_analysis, asks_for_docs,
}
use cognitive_execution_engi.Tools.{ToolRegistry, get}

pub data NextAction : Type 0 where
  propose_plan request_read_tool request_approval propose_redirect stop : NextAction

pub record ReasoningStep : Type 0 where
  pub task_id : String
  pub summary : String
  pub hypothesis : String
  pub missing_information : List String
  pub candidate_actions : List NextAction
  pub chosen_action : NextAction
  pub rationale : String
  pub stop_condition : String
  pub step_id : String

-- `_TERMINAL_ACTIONS`
abbrev pub is_terminal_action : NextAction → Bool
is_terminal_action propose_plan = true
is_terminal_action propose_redirect = true
is_terminal_action stop = true
is_terminal_action _ = false

abbrev pub max_chain_length : ℕ
max_chain_length = 5

-- `ReasoningChain.final_action` and `.is_terminal`, of the steps
unfoldable pub final_action : List ReasoningStep → NextAction
final_action steps = elim (last? steps) [ none ↦ propose_plan | some s ↦ s.chosen_action ]

unfoldable pub chain_is_terminal : List ReasoningStep → Bool
chain_is_terminal steps = elim (last? steps) [
  | none ↦ false
  | some s ↦ is_terminal_action s.chosen_action
]

-- the registry is given and has the documentation tool
unfoldable pub supports_read_docs : {F : Type 0} → Option (ToolRegistry F) → Bool
supports_read_docs none = false
supports_read_docs (some tools) = is_some (get tools "read_docs")

abbrev is_propose_plan : NextAction → Bool
is_propose_plan propose_plan = true
is_propose_plan _ = false

abbrev pub is_read_request : NextAction → Bool
is_read_request request_read_tool = true
is_read_request _ = false

-- the variables that the tests of `deliberate_next_action` rewrite
record Draft : Type 0 where
  candidates : List NextAction
  missing : List String
  chosen : NextAction
  rationale : String

abbrev start : Draft
start = record {
  candidates = propose_plan ∷ [];
  missing = [];
  chosen = propose_plan;
  rationale = "Task has enough structure to proceed directly into deterministic planning.";
}

consider_docs : (needed supported : Bool) → Draft → Draft
consider_docs false supported d = d
consider_docs true false d = record d {
  candidates = d.candidates ++ request_read_tool ∷ [];
  missing = d.missing ++ "External documentation evidence has not been observed yet." ∷ [];
}
consider_docs true true d = record d {
  candidates = d.candidates ++ request_read_tool ∷ [];
  missing = d.missing ++ "External documentation evidence has not been observed yet." ∷ [];
  chosen = request_read_tool;
  rationale =
      "Task explicitly asks for documentation lookup and a read-only docs tool is available, "
      <> "so the next step should gather observations before extending the plan.";
}

consider_risk : Bool → Draft → Draft
consider_risk false d = d
consider_risk true d = record d {
  candidates = d.candidates ++ request_approval ∷ [];
  rationale =
      if is_propose_plan d.chosen
      then "Task includes medium-or-high risk state change semantics; planning should proceed with "
        <> "approval-aware transitions."
      else d.rationale;
}

-- a redirect is a candidate, and is chosen if nothing else has been
redirect : String → Draft → Draft
redirect why d = record d {
  candidates = d.candidates ++ propose_redirect ∷ [];
  chosen = if is_propose_plan d.chosen then propose_redirect else d.chosen;
  rationale = if is_propose_plan d.chosen then why else d.rationale;
}

consider_redirect : Bool → Draft → Draft
unfolding redirect
consider_redirect false d = d
consider_redirect true d =
    redirect
      ("Analysis task with non-trivial risk; the current direction "
        <> "may benefit from exploration before committing to a plan.")
      d

consider_missing : Draft → Draft
unfolding redirect
consider_missing d =
    if leb 2 (length d.missing)
    then redirect
        ("Task has multiple missing information items; the current task direction "
          <> "may be wrong. Propose a redirect to gather more context before planning.")
        d
    else d

abbrev same_action : NextAction → NextAction → Bool
same_action propose_plan propose_plan = true
same_action request_read_tool request_read_tool = true
same_action request_approval request_approval = true
same_action propose_redirect propose_redirect = true
same_action stop stop = true
same_action _ _ = false

-- `tuple(dict.fromkeys(actions))`
distinct_from : List NextAction → List NextAction → List NextAction
distinct_from seen [] = seen
distinct_from seen (a ∷ actions) =
    distinct_from (if any (same_action a) seen then seen else seen ++ a ∷ []) actions

draft_of : {F : Type 0} → TaskSpec → Option (ToolRegistry F) → Draft
unfolding consider_docs consider_risk consider_redirect consider_missing supports_read_docs
draft_of task tools = consider_missing (
    consider_redirect (is_analysis task.kind && is_risky task.risk_level) (
      consider_risk (is_risky task.risk_level)
        (consider_docs (asks_for_docs task) (supports_read_docs tools) start)))

unfoldable pub deliberate_next_action :
    {F : Type 0} → TaskSpec → Option (ToolRegistry F) → String → ReasoningStep
unfolding draft_of distinct_from kind_text level_text
deliberate_next_action task tools id =
    let d = draft_of task tools in
    record {
      task_id = task.task_id;
      summary = "Determine the next bounded action for task '" <> task.objective <> "'.";
      hypothesis =
          "Task kind="
          <> kind_text task.kind
          <> ", risk_level="
          <> level_text task.risk_level
          <> ", domain="
          <> task.domain_name
          <> ".";
      missing_information = d.missing;
      candidate_actions = distinct_from [] d.candidates;
      chosen_action = d.chosen;
      rationale = d.rationale;
      stop_condition =
          "Stop after selecting the next action; execution is handled by later runtime stages.";
      step_id = id;
    }

-- a step that proposes the plan, whatever the base step says
forced : TaskSpec → ReasoningStep → String → String → String → String → ReasoningStep
forced task base summary rationale condition id = record {
  task_id = task.task_id;
  summary = summary;
  hypothesis = base.hypothesis;
  missing_information = base.missing_information;
  candidate_actions = propose_plan ∷ [];
  chosen_action = propose_plan;
  rationale = rationale;
  stop_condition = condition;
  step_id = id;
}

-- `_deliberate_chain_step`, from the base step
refine_step : TaskSpec → List ReasoningStep → ReasoningStep → String → ReasoningStep
unfolding forced
refine_step task previous base id =
    let number = length previous + 1 in
    if ltb 1 number
      && is_read_request base.chosen_action
      && any (λ s. is_read_request s.chosen_action) previous
    then forced task base
        ("Step " <> show number <> ": read tool already requested, proceeding to plan.")
        "Read tool was already requested in a previous step; proceeding to planning."
        "Terminal: proceeding to plan after gathering observations." id
    else if leb max_chain_length number
    then forced task base
        ("Step " <> show number <> ": maximum chain length reached, forcing plan.")
        ("Maximum reasoning chain length reached; "
          <> "forcing plan proposal to avoid infinite deliberation.")
        "Terminal: forced plan due to chain length limit." id
    else base

module _ {F : Type 0} (task : TaskSpec) (tools : Option (ToolRegistry F)) (ids : ℕ → String) where
  unfoldable pub deliberate_chain_step : List ReasoningStep → ReasoningStep
  unfolding refine_step
  deliberate_chain_step previous =
      let id = ids (length previous) in
      refine_step task previous (deliberate_next_action task tools id) id

  -- the loop, with the rounds that are left
  unfoldable pub chain_from : ℕ → List ReasoningStep → List ReasoningStep
  chain_from zero steps = steps
  chain_from (suc left) steps =
      let step = deliberate_chain_step steps in
      let rest = chain_from left (steps ++ step ∷ []) in
      if is_terminal_action step.chosen_action then steps ++ step ∷ [] else rest

  unfoldable pub deliberate_chain : ℕ → List ReasoningStep
  unfolding chain_from
  deliberate_chain max_steps = chain_from max_steps []
