-- ===== src/Examples/Memories.antt =====
-- Memories, their store and their promotion on concrete inputs.
use cognitive_execution_engi.Prelude.{
  every, List, ℕ, ◌+◌, ◌≤◌, String, ◌==◌, ◌≡◌, refl, true, false, not, [], ◌∷◌, ◌++◌, none, some,
  keep, map, length, ltb, is_some, if◌then◌else◌, arith, strip_prefix, all_distinct, contains,
  all_spaces, ◌&&◌,
}
use mathlib.Core.List.{Perm}
use cognitive_execution_engi.Value
use cognitive_execution_engi.Outcome.{ok}
use cognitive_execution_engi.Observation.{ObservationCandidate}
use cognitive_execution_engi.EventLog.{EventLog}
use cognitive_execution_engi.Value.Json.{entries_as_json}
use cognitive_execution_engi.Memory.{
  PrecedentMemory, MemoryStore, to_dict, file_of, open_store, add_memory, get_memory, delete_memory,
  matching, list_memories, cleanup_old_memories, get_count,
}
use cognitive_execution_engi.Memory.Mirror.{Mirrors, add_memory-Mirrors, delete_memory-Mirrors}
use cognitive_execution_engi.Memory.Reopen.{
  file_entry, reread_entry, has_plain_diff, open_store-reread,
}
use mathlib.Core.List.{Permᴰ}
use cognitive_execution_engi.Memory.Listing.{newest_first, list_memories-pages}
use cognitive_execution_engi.Memory.Cleanup.{cleanup_old_memories-Mirrors}
use cognitive_execution_engi.Memory.Promotion.{
  MemoryPromotionRequest, outcomes, sources, diff_size, default_policy, evaluate, request_to_dict,
}
use cognitive_execution_engi.Memory.Promotion.Policy.{
  is_strong, justified, evaluate_promotion_allows,
}
use cognitive_execution_engi.Memory.Promotion.Pipeline.{
  PromotionDraws, PromotionTask, promotion_event, effective_policy, promote_to_memory,
  promote_from_observation,
}
use cognitive_execution_engi.Memory.Promotion.Store.{
  memory_of, decision_event, promote_to_memory-decides, promote_from_observation-weak,
}
use cognitive_execution_engi.Examples.{fixed_point, commitment_record}

abbrev memory_at : String → ℕ → PrecedentMemory ℕ
memory_at id time = record {
  task_signature = "doors.open";
  state_diff = Value.end;
  evidence_refs = "obs1" ∷ [];
  outcome = "success";
  memory_id = id;
  failure_mode = none;
  approval_result = some "approved";
  semantic_vector = none;
  domain_label = "default";
  task_summary = "a door was opened";
  created_at = time;
}

-- two memories, the older one first
abbrev store : MemoryStore ℕ
store = record {
  memory_index = ("mem_1", memory_at "mem_1" 10) ∷ ("mem_2", memory_at "mem_2" 20) ∷ [];
  files =
      (file_of "mem_1", entries_as_json (to_dict (memory_at "mem_1" 10)))
      ∷ (file_of "mem_2", entries_as_json (to_dict (memory_at "mem_2" 20)))
      ∷ [];
}

store-Mirrors : Mirrors store
unfolding all_distinct contains
store-Mirrors = record { on_disk = refl; keyed = refl; distinct = refl }

add_memory-Mirrors_example :
    let after = (add_memory (memory_at "mem_3" 30) store).1 in
    Mirrors after
    × ((id : String)
        → get_memory id after
          ≡ (if "mem_3" == id then some (memory_at "mem_3" 30) else get_memory id store))
add_memory-Mirrors_example = add_memory-Mirrors (memory_at "mem_3" 30) store store-Mirrors

delete_memory-Mirrors_example :
    let (found, after) = delete_memory "mem_1" store in
    Mirrors after
    × (found ≡ is_some (get_memory "mem_1" store))
    × ((j : String) → get_memory j after ≡ (if "mem_1" == j then none else get_memory j store))
delete_memory-Mirrors_example = delete_memory-Mirrors "mem_1" store store-Mirrors

abbrev shelf : List (String × PrecedentMemory ℕ)
shelf = ("mem_2", memory_at "mem_2" 20) ∷ ("mem_1", memory_at "mem_1" 10) ∷ []

open_store-reread_example :
    let index = (open_store (λ name. ("mem_0", 0)) (map file_entry shelf)).memory_index in
    (index ≡ map reread_entry shelf)
    × (every has_plain_diff index ≡ true)
    × (every has_plain_diff shelf ≡ true → index ≡ shelf)
unfolding strip_prefix
open_store-reread_example =
    open_store-reread (λ name. ("mem_0", 0)) store shelf store-Mirrors refl (Permᴰ.swap refl refl)

-- the fixed-point numbers are compared one way only
ltb_asymmetric : (x y : ℕ) → ltb x y ≡ true → ltb y x ≡ false
ltb_asymmetric x y h = ground arith

list_memories-pages_example :
    let list = list_memories {F = ℕ} none (some "doors.open") none in
    (length (list 1 0 store) ≤ 1)
    × (newest_first (list 1 0 store) ≡ true)
    × (list 1 0 store ++ list 1 (0 + 1) store ≡ list (1 + 1) 0 store)
    × (length (matching none (some "doors.open") none store) ≤ 1
        → Perm (list 1 0 store) (matching none (some "doors.open") none store))
list_memories-pages_example =
    list_memories-pages ltb_asymmetric none (some "doors.open") none 1 1 0 store

cleanup_old_memories-Mirrors_example :
    let (deleted, final) = cleanup_old_memories 15 store in
    (final.memory_index ≡ keep (λ e. not (ltb e.1.created_at 15)) store.memory_index)
    × Mirrors final
    × (deleted + get_count final ≡ get_count store)
cleanup_old_memories-Mirrors_example = cleanup_old_memories-Mirrors 15 store store-Mirrors

abbrev observation : ObservationCandidate ℕ
observation = record {
  source_tool = "read_docs";
  call_id = "c1";
  content = Value.str "text";
  confidence = 500;
  evidence_weight = 10000;
  provenance = [];
}

abbrev request : MemoryPromotionRequest ℕ
request = record {
  request_id = "mpr_1";
  source = "observation";
  task_signature = "doors.open";
  task_summary = "";
  outcome = "success";
  evidence_refs = [];
  domain_label = "default";
  state_diff = Value.end;
  approval_result = none;
  failure_mode = none;
  observation = some (record observation { confidence = 9000 });
  revision_event = none;
  delta = none;
}

abbrev draws : PromotionDraws ℕ
draws = record {
  requested_trace = "tr_1";
  requested_at = "2026-01-01";
  decided_trace = "tr_2";
  decided_at = "2026-01-01";
  memory_id = "mem_3";
  created_at = 30;
}

abbrev told : PromotionTask ℕ
told = record {
  task_signature = "doors.open";
  task_summary = "";
  outcome = "success";
  evidence_refs = [];
  domain_label = "default";
  state_diff = none;
}

abbrev old_log : EventLog ℕ
old_log = commitment_record ∷ []

promote_to_memory-decides_example :
    let decision = effective_policy none request in
    let m = memory_of draws request in
    promote_to_memory draws request none (old_log, store) ≡ (
      ok (record {
        request = request;
        policy_decision = decision;
        memory = if decision.allowed then some m else none;
        memory_id = if decision.allowed then some draws.memory_id else none;
      }),
      (
        old_log
            ++ promotion_event "memory.promotion.requested"
                (request_to_dict request)
                draws.requested_trace
                draws.requested_at
              ∷ decision_event decision.allowed draws request decision
              ∷ [],
        if decision.allowed then (add_memory m store).1 else store,
      ),
    )
promote_to_memory-decides_example = promote_to_memory-decides draws request none old_log store

promote_from_observation-weak_example :
    (promote_from_observation "mpr_2" draws observation told none (old_log, store)).1.1 ≡ store
promote_from_observation-weak_example =
    promote_from_observation-weak "mpr_2" draws observation told old_log store refl

evaluate_promotion_allows_example : (evaluate default_policy request).allowed ≡ (
    not (all_spaces request.task_signature)
    && (contains request.outcome outcomes
        && (contains request.source sources
            && (not (ltb 10000 (diff_size request))
                && (is_strong default_policy request.observation
                    && justified request.revision_event)))))
evaluate_promotion_allows_example = evaluate_promotion_allows default_policy request
