-- ===== src/EventLog/Replay/Targets.antt =====
-- src/cee_core/event_log.py: what one revision delta does to the replayed world, by the kind of its
-- target. A raw value that is not a text where a text is stored is outside the model, and raises.
use cognitive_execution_engi.Prelude.{
  String, ◌==◌, List, [], Option, none, some, ◌<>◌, if◌then◌else◌, truthy, or_else, strip_prefix,
  is_some, map,
}
use cognitive_execution_engi.Value
use cognitive_execution_engi.Value.{
  Value, Values, Entries, Platform, get, items, append, sequence, to_float,
}
use cognitive_execution_engi.Outcome.{Outcome, ok, raise, ◌>>=◌, type_error}
use cognitive_execution_engi.World.Schema.{RevisionDelta}
use cognitive_execution_engi.World.State.{WorldState, find_entity, find_hypothesis}
use cognitive_execution_engi.World.Update.{
  add_entity, add_hypothesis_to_world, update_hypothesis_status, update_entity, update_self_model,
  update_dominant_goals,
}

-- `d.get(key, default)`, a text
unfoldable pub text_or : {F : Type 0} → String → Option (Value F) → Outcome String
text_or default none = ok default
text_or default (some (Value.str s)) = ok s
text_or default (some _) = raise (type_error "the value is not a text")

-- `d.get(key)`, with `None` for a missing key
unfoldable pub present : {F : Type 0} → Option (Value F) → Option (Value F)
present none = none
present (some Value.null) = none
present (some v) = some v

abbrev or_text : String → String → String
or_text s other = if truthy s then s else other

-- `update_hypothesis_status(ws, hid, status, provenance_ref=…)`: a required argument is missing
unfoldable pub call_without_confidence : {F : Type 0} → Outcome (WorldState F)
call_without_confidence = raise (
    type_error
      "update_hypothesis_status() missing 1 required positional argument: 'new_confidence'")

module _ {F : Type 0} ⦃p : Platform F⦄ where
  -- a hypothesis that is known gets a new status
  unfoldable pub revise_hypothesis :
      WorldState F → String → String → Option (Value F) → String → Outcome (WorldState F)
  unfolding to_float call_without_confidence
  revise_hypothesis ws id status none ref = call_without_confidence
  revise_hypothesis ws id status (some v) ref = do
    confidence ← to_float v
    update_hypothesis_status ws id status confidence ref

  unfoldable pub float_or : Option (Value F) → Outcome F
  unfolding to_float
  float_or none = ok (p.decimal 5 1)
  float_or (some v) = to_float v

  unfoldable pub new_hypothesis :
      WorldState F → String → String → String → F → String → Outcome (WorldState F)
  new_hypothesis ws id statement status confidence ref =
      add_hypothesis_to_world ws
        (record {
          hypothesis_id = id;
          statement = statement;
          related_entity_ids = [];
          related_relation_ids = [];
          confidence = confidence;
          status = status;
        })
        ref

  unfoldable pub apply_hypothesis_update :
      WorldState F → RevisionDelta F → String → Value F → Outcome (WorldState F)
  unfolding get text_or present revise_hypothesis float_or new_hypothesis
  apply_hypothesis_update ws delta ref (Value.dict raw) = do
    id ← text_or delta.target_ref (get "hypothesis_id" raw)
    status ← text_or "active" (get "status" raw)
    let confidence = present (get "confidence" raw)
    if is_some (find_hypothesis ws id) then revise_hypothesis ws id status confidence ref else (do
      fallback ← text_or "" (get "statement" raw)
      c ← float_or confidence
      new_hypothesis ws id (or_text delta.after_summary fallback) status c ref)
  apply_hypothesis_update ws delta ref _ = ok ws

  abbrev pub text_value : String → Value F → String
  text_value default (Value.str s) = s
  text_value default _ = default

  unfoldable pub apply_hypothesis_remove : WorldState F → RevisionDelta F → Outcome (WorldState F)
  unfolding call_without_confidence
  apply_hypothesis_remove ws delta =
      if is_some (find_hypothesis ws (text_value delta.target_ref delta.raw_value))
      then call_without_confidence
      else ok ws

  unfoldable pub apply_hypothesis_add :
      WorldState F → RevisionDelta F → String → Value F → Outcome (WorldState F)
  unfolding get text_or to_float new_hypothesis
  apply_hypothesis_add ws delta ref (Value.dict raw) = do
    id ← text_or delta.target_ref (get "hypothesis_id" raw)
    statement ← text_or delta.after_summary (get "statement" raw)
    status ← text_or "tentative" (get "status" raw)
    c ← to_float (or_else (get "confidence" raw) (Value.float (p.decimal 5 1)))
    new_hypothesis ws id statement status c ref
  apply_hypothesis_add ws delta ref _ =
      if truthy delta.after_summary
      then new_hypothesis ws delta.delta_id delta.after_summary "tentative" (p.decimal 5 1) ref
      else ok ws

  -- `tuple(str(v) for v in values)`
  abbrev strings : Values F → List String
  strings vs = map p.text (items vs)

  unfoldable pub apply_goal_update : WorldState F → Option (Values F) → Outcome (WorldState F)
  unfolding items
  apply_goal_update ws none = ok ws
  apply_goal_update ws (some goals) = update_dominant_goals ws (strings goals) ""

  -- the float of a number, if the value is one
  abbrev number : Value F → Option (Value F)
  number (Value.bool b) = some (Value.bool b)
  number (Value.int z) = some (Value.int z)
  number (Value.float x) = some (Value.float x)
  number _ = none

  set_capabilities : WorldState F → Option (Values F) → Outcome (WorldState F)
  unfolding items
  set_capabilities ws none = ok ws
  set_capabilities ws (some vs) = update_self_model ws (some (strings vs)) none none ""

  set_limits : WorldState F → Option (Values F) → Outcome (WorldState F)
  unfolding items
  set_limits ws none = ok ws
  set_limits ws (some vs) = update_self_model ws none (some (strings vs)) none ""

  set_reliability : WorldState F → Option (Value F) → Outcome (WorldState F)
  unfolding to_float
  set_reliability ws none = ok ws
  set_reliability ws (some v) = do x ← to_float v; update_self_model ws none none (some x) ""

  unfoldable pub apply_self_update : WorldState F → String → Value F → Outcome (WorldState F)
  unfolding set_capabilities set_limits set_reliability
  apply_self_update ws ref raw =
      if ref == "self_model.capabilities"
      then set_capabilities ws (sequence raw)
      else if ref == "self_model.limits"
      then set_limits ws (sequence raw)
      else if ref == "self_model.reliability"
      then set_reliability ws (number raw)
      else ok ws

  -- the entity gets the summary, and is added first if it is not known
  put_entity : WorldState F → String → String → String → Outcome (WorldState F)
  put_entity ws id kind summary =
      if is_some (find_entity ws id)
      then update_entity ws id (some summary) none ""
      else add_entity ws
          (record { entity_id = id; kind = kind; summary = summary; confidence = p.decimal 1 0 }) ""

  put_belief : WorldState F → String → Value F → Outcome (WorldState F)
  unfolding put_entity
  put_belief ws key (Value.str s) =
      put_entity ws ("belief-" <> key) "belief_item" (key <> " = " <> s)
  put_belief ws key raw = put_entity ws ("belief-" <> key) "belief_group" (p.dumps raw)

  -- the stored list with the value behind it; what is no list gives way to the value, and what
  -- cannot be read counts as the empty list
  recall : Option (Value F) → Value F → Value F
  unfolding append
  recall none raw = Value.list (Value.cons raw Value.nil)
  recall (some (Value.list vs)) raw = Value.list (append vs raw)
  recall (some _) raw = raw

  abbrev as_list : Value F → Value F
  as_list (Value.list vs) = Value.list vs
  as_list v = Value.list (Value.cons v Value.nil)

  put_memory : WorldState F → String → Value F → Outcome (WorldState F)
  unfolding recall
  put_memory ws key raw =
      let id = "memory-" <> key in
      elim (find_entity ws id) [
        | some e ↦ update_entity ws id (some (p.dumps (recall (p.loads e.summary) raw))) none ""
        | none ↦
            add_entity ws
              (record {
                entity_id = id;
                kind = "memory_entry";
                summary = p.dumps (as_list raw);
                confidence = p.decimal 1 0;
              })
              ""
      ]

  -- by the prefix of the target: beliefs, domain data, memory, or nothing
  unfoldable pub apply_entity : WorldState F → String → Value F → Outcome (WorldState F)
  unfolding put_belief put_entity put_memory
  apply_entity ws ref Value.null = ok ws
  apply_entity ws ref raw = elim (strip_prefix "beliefs." ref) [
    | some key ↦ put_belief ws key raw
    | none ↦ elim (strip_prefix "domain_data." ref) [
      | some key ↦ put_entity ws ("domain-" <> key) "domain_data" (p.dumps raw)
      | none ↦ elim (strip_prefix "memory." ref) [ some key ↦ put_memory ws key raw | none ↦ ok ws ]
    ]
  ]
