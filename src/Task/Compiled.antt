-- ===== src/Task/Compiled.antt =====
-- src/cee_core/tasks.py: when a text compiles to a task, and what the task is.
use cognitive_execution_engi.Prelude.{
  String, ◌≡◌, refl, sym, ◌∙◌, Bool, true, false, not, ◌&&◌, ◌||◌, List, [], ◌∷◌, ◌++◌, ◌<>◌,
  truthy, contains, is_space, all_spaces, if◌then◌else◌, arith,
}
use Prim.Native.String.compare
use Prim.Native.Char.{Char}
use text.Mathlib.TextLemmas.{cons-append}
use cognitive_execution_engi.Outcome.{Outcome, ok, raise, value_error}
use cognitive_execution_engi.EventLog.{EventLog, append}
use cognitive_execution_engi.Primitives.{default_primitives_for_task_kind, validate_primitives}
use cognitive_execution_engi.Task.{TaskSpec, is_risky, kind_text}
use cognitive_execution_engi.Task.Compile.{
  split_from, split_words, with_word, spaced, normalized, mentions, update_tokens, is_update,
  classify_task_level, TaskDraws, task_spec, received, log_received, compile_objective,
  compile_task,
}

-- the first word, if there is one, is not empty
unfoldable head_full : List String → Bool
head_full [] = true
head_full (w ∷ ws) = truthy w

abbrev has_words : List String → Bool
has_words [] = false
has_words (w ∷ ws) = true

with_word-full :
    (w : String) (ws : List String) → head_full ws ≡ true → head_full (with_word w ws) ≡ true
unfolding head_full
with_word-full w ws h = ground arith

with_word-has :
    (w : String) (ws : List String) → has_words (with_word w ws) ≡ (truthy w || has_words ws)
with_word-has String.[] ws = refl
with_word-has (String.◌∷◌ c w) ws = rw (compare.cons-nil c w) refl

split_from-full : (s : String) → head_full (split_from s).1 ≡ true
unfolding split_from head_full
split_from-full String.[] = refl
split_from-full (String.◌∷◌ c s) =
    ground (arith, split_from-full s, with_word-full (split_from s).0 (split_from s).1)

-- one letter of the split
letter-has :
    (space rest : Bool) (c : Char) (w : String) (ws : List String)
    → (truthy w || has_words ws) ≡ not rest
    → let split =
        if◌then◌else◌ {A = String × List String} space ("", with_word w ws) (String.◌∷◌ c w, ws) in
      (truthy split.0 || has_words split.1) ≡ not (space && rest)
letter-has true rest c w ws h = with_word-has w ws ∙ h
letter-has false rest c w ws h = rw (compare.cons-nil c w) refl

split_from-has :
    (s : String) → (truthy (split_from s).0 || has_words (split_from s).1) ≡ not (all_spaces s)
unfolding split_from all_spaces
split_from-has String.[] = refl
split_from-has (String.◌∷◌ c s) =
    letter-has (is_space c) (all_spaces s) c (split_from s).0 (split_from s).1 (split_from-has s)

truthy-append : (w s : String) → truthy w ≡ true → truthy (w <> s) ≡ true
truthy-append String.[] s h = cc
truthy-append (String.◌∷◌ c w) s h = rw cons-append (rw (compare.cons-nil c (w <> s)) refl)

truthy-spaced : (ws : List String) → head_full ws ≡ true → truthy (spaced ws) ≡ has_words ws
unfolding spaced head_full
truthy-spaced [] h = refl
truthy-spaced (w ∷ []) h = h
truthy-spaced (w ∷ v ∷ ws) h = truthy-append w _ h

truthy-normalized : (raw : String) → truthy (normalized raw) ≡ not (all_spaces raw)
unfolding normalized split_words
truthy-normalized raw =
    truthy-spaced (split_words raw)
      (with_word-full (split_from raw).0 (split_from raw).1 (split_from-full raw))
    ∙ with_word-has (split_from raw).0 (split_from raw).1
    ∙ split_from-has raw

-- The run gives the task of the text, and logs it if it is to.
abbrev pub Compiles :
    {F : Type 0} → Bool → TaskDraws → String → EventLog F → Outcome TaskSpec × EventLog F → Type 0
Compiles has_log draws raw log run =
    (task : TaskSpec) × (run ≡ (ok task, if has_log then log ++ received draws task ∷ [] else log))
    × (task.raw_input ≡ raw)
    × (task.objective ≡ normalized raw)
    × (validate_primitives task.requested_primitives ≡ ok task.requested_primitives)
    × (is_update task.kind ≡ mentions update_tokens task.objective)
    × (is_risky task.risk_level ≡ is_update task.kind)
    × (task.task_level ≡ classify_task_level task.objective task.kind task.risk_level)

compile_objective-Compiles :
    {F : Type 0} (has_log updates : Bool) (draws : TaskDraws) (raw domain : String)
    (log : EventLog F)
    → mentions update_tokens (normalized raw) ≡ updates
    → Compiles has_log draws raw log
        (compile_objective has_log draws raw domain (normalized raw) updates log)
unfolding compile_objective log_received task_spec append default_primitives_for_task_kind kind_text
    validate_primitives contains
compile_objective-Compiles true true draws raw domain log h =
    (_, refl, refl, refl, refl, sym h, refl, refl)
compile_objective-Compiles true false draws raw domain log h =
    (_, refl, refl, refl, refl, sym h, refl, refl)
compile_objective-Compiles false true draws raw domain log h =
    (_, refl, refl, refl, refl, sym h, refl, refl)
compile_objective-Compiles false false draws raw domain log h =
    (_, refl, refl, refl, refl, sym h, refl, refl)

-- A text of spaces alone does not compile: a value error is raised, and the log stays. Any other text
-- compiles: the task keeps the raw text, all its primitives are valid, it is an update exactly if it
-- is risky, and its level is that of its objective; the log, if there is one, gets one record.
pub compile_task-Compiles :
    {F : Type 0} (has_log : Bool) (draws : TaskDraws) (raw domain : String) (log : EventLog F)
    → (all_spaces raw ≡ true
        → compile_task has_log draws raw domain log
          ≡ (raise (value_error "raw_input cannot be empty"), log))
      × (all_spaces raw ≡ false
          → Compiles has_log draws raw log (compile_task has_log draws raw domain log))
unfolding compile_task
compile_task-Compiles has_log draws raw domain log = (
  λ h. rw (truthy-normalized raw, h) refl,
  λ h.
      rw (truthy-normalized raw, h)
        (compile_objective-Compiles has_log _ draws raw domain log refl),
)
