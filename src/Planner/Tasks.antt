-- ===== src/Planner/Tasks.antt =====
-- src/cee_core/planner.py: the plan of a structured task.
use cognitive_execution_engi.Prelude.{
  ℕ, zero, suc, String, Bool, true, false, not, ◌&&◌, ◌||◌, List, [], ◌∷◌, ◌++◌, Option, none, some,
  ◌<>◌, contains, if◌then◌else◌, truthy, is_some, eqb, leb, pos, any, map, ◌+◌,
}
use Prim.Native.Char.{code}
use cognitive_execution_engi.Value
use cognitive_execution_engi.Value.{Value, Values, Entries, Platform, of_list}
use cognitive_execution_engi.World.Schema.{RevisionDelta, entity_update, goal_update, self_update}
use cognitive_execution_engi.Task
use cognitive_execution_engi.Task.{TaskSpec, is_risky, is_analysis, occurs_lower, doc_tokens}
use cognitive_execution_engi.Tools.{ToolCallSpec, ToolRegistry, get}
use cognitive_execution_engi.Deliberation.{ReasoningStep, propose_redirect, request_read_tool}
use cognitive_execution_engi.Planner.{PlanSpec}

abbrev lower_code : ℕ → ℕ
lower_code c = if leb 65 c && leb c 90 then c + 32 else if eqb c 8490 then 107 else c

-- the text behind `p`, if the text begins with it in lower case
behind : String → String → Option String
behind String.[] s = some s
behind (String.◌∷◌ c p) String.[] = none
behind (String.◌∷◌ c p) (String.◌∷◌ d s) =
    let rest = behind p s in if eqb (code c) (lower_code (code d)) then rest else none

-- how many characters the lower case of a character has: two for a capital I with a dot
width : ℕ → ℕ
width c = if eqb c 304 then 2 else 1

-- `s.lower().index(p)`, for a phrase that is not empty
position : String → String → Option ℕ
unfolding behind width
position p String.[] = none
position p (String.◌∷◌ c s) =
    let rest = position p s in
    if is_some (behind p (String.◌∷◌ c s))
    then some 0
    else elim rest [ none ↦ none | some n ↦ some (n + width (code c)) ]

-- `s[n:]`
drop_chars : ℕ → String → String
drop_chars zero s = s
drop_chars (suc n) String.[] = ""
drop_chars (suc n) (String.◌∷◌ c s) = drop_chars n s

-- `len(s)`
count_chars : String → ℕ
count_chars String.[] = 0
count_chars (String.◌∷◌ c s) = suc (count_chars s)

-- what stands in the text behind the place that the phrase has in its lower case
unfoldable pub after_lower : String → String → Option String
unfolding position drop_chars count_chars
after_lower p s = elim (position p s) [
  | none ↦ none
  | some n ↦ some (drop_chars (n + count_chars p) s)
]

-- a character of " :,-"
is_filler : ℕ → Bool
is_filler c = eqb c 32 || eqb c 58 || eqb c 44 || eqb c 45

-- `s.rstrip(" :,-")`
strip_right : String → String
unfolding is_filler
strip_right String.[] = ""
strip_right (String.◌∷◌ c s) =
    let rest = strip_right s in
    if is_filler (code c) && not (truthy rest) then "" else String.◌∷◌ c rest

-- `s.strip(" :,-")`
unfoldable pub strip : String → String
unfolding is_filler strip_right
strip String.[] = ""
strip (String.◌∷◌ c s) =
    let rest = strip s in if is_filler (code c) then rest else strip_right (String.◌∷◌ c s)

-- the query behind the first phrase of the list that occurs, or the whole objective
unfoldable pub query_of : List String → String → String
unfolding after_lower strip
query_of [] objective = objective
query_of (token ∷ tokens) objective =
    let rest = query_of tokens objective in
    elim (after_lower token objective) [
      | none ↦ rest
      | some tail ↦
          (let extracted = strip tail in if truthy extracted then extracted else objective)
    ]

-- `reasoning_step is not None and reasoning_step.chosen_action == …`
abbrev pub redirects : Option ReasoningStep → Bool
redirects none = false
redirects (some step) = elim step.chosen_action [ propose_redirect ↦ true | _ ↦ false ]

abbrev pub reads : Option ReasoningStep → Bool
reads none = true
reads (some step) = elim step.chosen_action [ request_read_tool ↦ true | _ ↦ false ]

unfoldable pub has_read_docs : {F : Type 0} → Option (ToolRegistry F) → Bool
has_read_docs none = false
has_read_docs (some tools) = is_some (get tools "read_docs")

module _ {F : Type 0} where
  -- `_propose_read_only_tool_calls`; the id of the call is given
  unfoldable pub propose_read_only_tool_calls :
      String → TaskSpec → Option (ToolRegistry F) → Option ReasoningStep → List (ToolCallSpec F)
  unfolding query_of has_read_docs occurs_lower
  propose_read_only_tool_calls id task tools step =
      if has_read_docs tools
        && (reads step
            && (is_analysis task.kind
                && (contains "observe" task.requested_primitives
                    && any (λ token. occurs_lower token task.objective) doc_tokens)))
      then record {
        tool_name = "read_docs";
        arguments = Value.entry "query" (Value.str (query_of doc_tokens task.objective)) Value.end;
        call_id = id;
      }
        ∷ []
      else []

module _ {F : Type 0} ⦃p : Platform F⦄ where
  -- what the working memory takes down of a task
  working_memory : TaskSpec → Value F
  unfolding Task.kind_text Task.level_text of_list
  working_memory task = Value.dict (
      Value.entry "task_id" (Value.str task.task_id) (
        Value.entry "domain_name" (Value.str task.domain_name) (
          Value.entry "kind" (Value.str (Task.kind_text task.kind)) (
            Value.entry "risk_level" (Value.str (Task.level_text task.risk_level)) (
              Value.entry "task_level" (Value.str task.task_level) (
                Value.entry "requested_primitives"
                  (Value.list (of_list (map (λ s. Value.str s) task.requested_primitives)))
                  (Value.entry "confidence" (Value.float (p.decimal 1 0)) (
                    Value.entry "evidence_count" (Value.int (pos 2)) (
                      Value.entry "provenance" (Value.str "deterministic_planner")
                        Value.end)))))))))

  -- the four deltas of every task
  unfoldable pub base_deltas : TaskSpec → List (RevisionDelta F)
  unfolding working_memory
  base_deltas task =
      record {
        delta_id = "delta-goals-active-" <> task.task_id;
        target_kind = goal_update;
        target_ref = "goals.active";
        before_summary = "no active goal";
        after_summary = "active goal: " <> task.task_id;
        justification = "set active goal from task " <> task.task_id;
        raw_value = Value.list (Value.cons (Value.str task.task_id) Value.nil);
      }
      ∷ record {
        delta_id = "delta-beliefs-obj-" <> task.task_id;
        target_kind = entity_update;
        target_ref = "beliefs.task." <> task.task_id <> ".objective";
        before_summary = "objective not set";
        after_summary = task.objective;
        justification = "set task objective from task " <> task.task_id;
        raw_value = Value.str task.objective;
      }
      ∷ record {
        delta_id = "delta-beliefs-domain-" <> task.task_id;
        target_kind = entity_update;
        target_ref = "beliefs.task." <> task.task_id <> ".domain_name";
        before_summary = "domain not set";
        after_summary = task.domain_name;
        justification = "set task domain from task " <> task.task_id;
        raw_value = Value.str task.domain_name;
      }
      ∷ record {
        delta_id = "delta-memory-working-" <> task.task_id;
        target_kind = entity_update;
        target_ref = "memory.working";
        before_summary = "no working memory entry";
        after_summary = "task " <> task.task_id <> " working memory";
        justification = "append working memory from task " <> task.task_id;
        raw_value = working_memory task;
      }
      ∷ []

  -- the delta of a task whose risk is not low
  unfoldable pub risk_deltas : TaskSpec → List (RevisionDelta F)
  risk_deltas task =
      if is_risky task.risk_level
      then record {
        delta_id = "delta-self-risk-" <> task.task_id;
        target_kind = self_update;
        target_ref = "self_model.last_medium_or_high_risk_task";
        before_summary = "no recent risk task";
        after_summary = task.task_id;
        justification = "record medium/high risk task " <> task.task_id;
        raw_value = Value.str task.task_id;
      }
        ∷ []
      else []

  -- The ids of the plan and of its call are given.
  unfoldable pub plan_from_task :
      (plan_id call_id : String)
      → TaskSpec
      → (actor : String) → Option (ToolRegistry F)
      → Option ReasoningStep
      → PlanSpec F
  unfolding base_deltas risk_deltas propose_read_only_tool_calls
  plan_from_task plan_id call_id task actor tools step =
      if redirects step
      then record {
        objective = "redirect: " <> task.objective;
        candidate_deltas = [];
        proposed_tool_calls = [];
        plan_id = plan_id;
        actor = actor;
      }
      else record {
        objective = task.objective;
        candidate_deltas = base_deltas task ++ risk_deltas task;
        proposed_tool_calls = propose_read_only_tool_calls call_id task tools step;
        plan_id = plan_id;
        actor = actor;
      }
