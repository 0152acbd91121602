-- ===== src/Serial/Plan.antt =====
-- src/cee_core/planner.py: `PlanSpec` as a payload.
use cognitive_execution_engi.Prelude.{every, ◌≡◌, refl, List, [], ◌∷◌, true, if◌then◌else◌}
use cognitive_execution_engi.Value.{Value, Entries, Platform, nil}
use cognitive_execution_engi.Outcome.{Outcome, ok, ◌>>=◌}
use cognitive_execution_engi.Schemas.{require_schema_version}
use cognitive_execution_engi.Serial.{
  dict_of, required, optional, as_dict, write_each, read_each, read_each_all, str_of, falsy,
}
use cognitive_execution_engi.Planner.{PlanSpec}
use cognitive_execution_engi.Tools.{ToolCallSpec}
use cognitive_execution_engi.Value.{of_list}
use cognitive_execution_engi.World.Schema.{RevisionDelta}
use cognitive_execution_engi.Serial.{read_items}
use cognitive_execution_engi.Serial.Delta.{write_delta, read_delta, deltas_back, listed_delta}
use cognitive_execution_engi.Schemas.{plan_schema_version}

module _ {F : Type 0} where
  call_to_dict : ToolCallSpec F → Entries F
  unfolding dict_of
  call_to_dict call = dict_of (
      ("call_id", Value.str call.call_id)
      ∷ ("tool_name", Value.str call.tool_name)
      ∷ ("arguments", Value.dict call.arguments)
      ∷ [])

  write_call : ToolCallSpec F → Value F
  unfolding call_to_dict
  write_call call = Value.dict (call_to_dict call)

module _ {F : Type 0} ⦃p : Platform F⦄ where
  call_from_dict : Entries F → Outcome (ToolCallSpec F)
  unfolding required str_of as_dict
  call_from_dict call = do
    call_id ← required "call_id" call
    tool_name ← required "tool_name" call
    arguments ← required "arguments" call >>= as_dict
    ok (record { tool_name = str_of tool_name; arguments = arguments; call_id = str_of call_id })

  read_call : Value F → Outcome (ToolCallSpec F)
  unfolding as_dict call_from_dict
  read_call v = as_dict v >>= call_from_dict

  calls_back : (cs : List (ToolCallSpec F)) → read_each read_call (write_each write_call cs) ≡ ok cs
  unfolding read_call write_call call_from_dict call_to_dict required str_of as_dict dict_of
  calls_back cs = read_each_all write_call read_call cs (λ c. refl)

  or_older : Value F → Value F → Value F
  unfolding falsy
  or_older deltas older = if falsy deltas then older else deltas

  -- the deltas, or the older key where they are empty
  deltas_data : Entries F → Value F
  unfolding optional or_older
  deltas_data payload =
      or_older (optional "candidate_deltas" (Value.tuple nil) payload)
        (optional "candidate_patches" (Value.tuple nil) payload)

  or_older_back :
      (ds : List (RevisionDelta F))
      → every listed_delta ds ≡ true
      → read_each read_delta (or_older (write_each write_delta ds) (Value.tuple nil)) ≡ ok ds
  unfolding or_older falsy write_each of_list read_each read_items
  or_older_back [] h = refl
  or_older_back (d ∷ ds) h = deltas_back (d ∷ ds) h

module _ {F : Type 0} where
  unfoldable pub to_dict : PlanSpec F → Entries F
  unfolding dict_of write_each write_delta write_call
  to_dict r = dict_of (
      ("schema_version", Value.str plan_schema_version)
      ∷ ("plan_id", Value.str r.plan_id)
      ∷ ("objective", Value.str r.objective)
      ∷ ("actor", Value.str r.actor)
      ∷ ("candidate_deltas", write_each write_delta r.candidate_deltas)
      ∷ ("proposed_tool_calls", write_each write_call r.proposed_tool_calls)
      ∷ [])

module _ {F : Type 0} ⦃p : Platform F⦄ where
  unfoldable pub from_dict : Entries F → Outcome (PlanSpec F)
  unfolding require_schema_version required optional deltas_data read_each read_delta read_call
      str_of
  from_dict payload = do
    checked ← require_schema_version payload plan_schema_version true
    plan_id ← required "plan_id" payload
    objective ← required "objective" payload
    let actor = optional "actor" (Value.str "planner") payload
    candidate_deltas ← read_each read_delta (deltas_data payload)
    proposed_tool_calls ←
        read_each read_call (optional "proposed_tool_calls" (Value.tuple nil) payload)
    ok (record {
      plan_id = str_of plan_id;
      objective = str_of objective;
      actor = str_of actor;
      candidate_deltas = candidate_deltas;
      proposed_tool_calls = proposed_tool_calls;
    })

  -- A plan that is written as a payload is read back, with its deltas and its tool calls, provided that
  -- the target kinds of its deltas are ones that the source lists.
  pub plan_back :
      (r : PlanSpec F) → every listed_delta r.candidate_deltas ≡ true → from_dict (to_dict r) ≡ ok r
  unfolding from_dict to_dict require_schema_version required optional dict_of str_of deltas_data
  plan_back r h = rw (or_older_back r.candidate_deltas h, calls_back r.proposed_tool_calls) refl
