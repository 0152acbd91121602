-- ===== src/Memory.antt =====
-- src/cee_core/memory_types.py and src/cee_core/memory_store.py: precedent memories and their store.
-- The store is its index, in insertion order, and the files of its directory, by their names; the JSON
-- text of a file is taken as the payload that is read from it, with lists for the tuples that were
-- written. The id and the time that `from_dict` draws for a payload without them are arguments. The
-- proofs are in `Payload`, `Mirror`, `Reopen`, `Listing` and `Cleanup`; `Promotion` has
-- src/cee_core/memory_promotion.py.
pub mod Payload
pub mod Mirror
pub mod Reorder
pub mod Reopen
pub mod Listing
pub mod Cleanup
pub mod Promotion
use cognitive_execution_engi.Prelude.{
  ℕ, suc, zero, ◌+◌, String, ◌==◌, ◌<>◌, ◌&&◌, Bool, true, false, List, [], ◌∷◌, map, keep, length,
  Option, none, some, truthy, has_prefix, put, lookup, drop_key, is_some, if◌then◌else◌,
}
use cognitive_execution_engi.Value
use cognitive_execution_engi.Value.{Value, Values, Entries, Platform, of_list}
use cognitive_execution_engi.Value.Json.{entries_as_json}
use cognitive_execution_engi.Outcome.{Outcome, ok, raise, ◌>>=◌, type_error}
use cognitive_execution_engi.Serial.{
  dict_of, required, optional, as_text, as_float, as_texts, texts, as_dict, as_text_or_null,
  write_each, read_each,
}

pub record PrecedentMemory (F : Type 0) : Type 0 where
  pub task_signature : String
  pub state_diff : Entries F
  pub evidence_refs : List String
  pub outcome : String
  pub memory_id : String
  pub failure_mode : Option String
  pub approval_result : Option String
  pub semantic_vector : Option (List F)
  pub domain_label : String
  pub task_summary : String
  pub created_at : F

module _ {F : Type 0} where
  -- None or a text
  abbrev pub text_or_null : Option String → Value F
  text_or_null none = Value.null
  text_or_null (some s) = Value.str s

  -- None or a list of floats
  unfoldable pub vector_or_null : Option (List F) → Value F
  unfolding write_each
  vector_or_null none = Value.null
  vector_or_null (some xs) = write_each (λ x. Value.float x) xs

  unfoldable pub as_vector : Value F → Outcome (Option (List F))
  unfolding read_each as_float
  as_vector Value.null = ok none
  as_vector v = do xs ← read_each as_float v; ok (some xs)

  -- `PrecedentMemory.to_dict`
  unfoldable pub to_dict : PrecedentMemory F → Entries F
  unfolding dict_of texts vector_or_null
  to_dict m = dict_of (
      ("memory_id", Value.str m.memory_id)
      ∷ ("task_signature", Value.str m.task_signature)
      ∷ ("state_diff", Value.dict m.state_diff)
      ∷ ("evidence_refs", texts m.evidence_refs)
      ∷ ("outcome", Value.str m.outcome)
      ∷ ("failure_mode", text_or_null m.failure_mode)
      ∷ ("approval_result", text_or_null m.approval_result)
      ∷ ("semantic_vector", vector_or_null m.semantic_vector)
      ∷ ("domain_label", Value.str m.domain_label)
      ∷ ("task_summary", Value.str m.task_summary)
      ∷ ("created_at", Value.float m.created_at)
      ∷ [])

  -- `PrecedentMemory.from_dict`, with the drawn id and time
  unfoldable pub from_dict : String → F → Entries F → Outcome (PrecedentMemory F)
  unfolding required optional as_text as_dict as_texts as_text_or_null as_vector as_float
  from_dict drawn_id now payload = do
    task_signature ← required "task_signature" payload >>= as_text
    state_diff ← required "state_diff" payload >>= as_dict
    evidence_refs ← required "evidence_refs" payload >>= as_texts
    outcome ← required "outcome" payload >>= as_text
    memory_id ← as_text (optional "memory_id" (Value.str drawn_id) payload)
    failure_mode ← as_text_or_null (optional "failure_mode" Value.null payload)
    approval_result ← as_text_or_null (optional "approval_result" Value.null payload)
    semantic_vector ← as_vector (optional "semantic_vector" Value.null payload)
    domain_label ← as_text (optional "domain_label" (Value.str "default") payload)
    task_summary ← as_text (optional "task_summary" (Value.str "") payload)
    created_at ← as_float (optional "created_at" (Value.float now) payload)
    ok (record {
      task_signature = task_signature;
      state_diff = state_diff;
      evidence_refs = evidence_refs;
      outcome = outcome;
      memory_id = memory_id;
      failure_mode = failure_mode;
      approval_result = approval_result;
      semantic_vector = semantic_vector;
      domain_label = domain_label;
      task_summary = task_summary;
      created_at = created_at;
    })

pub record MemoryStore (F : Type 0) : Type 0 where
  pub memory_index : List (String × PrecedentMemory F)
  pub files : List (String × Entries F)

-- `f"{memory_id}.json"`
abbrev pub file_of : String → String
file_of memory_id = memory_id <> ".json"

unfoldable pub has_suffix : String → String → Bool
has_suffix p String.[] = String.[] == p
has_suffix p (String.◌∷◌ c s) =
    let rest = has_suffix p s in if String.◌∷◌ c s == p then true else rest

-- the names that `glob("mem_*.json")` gives
unfoldable pub matches_glob : String → Bool
unfolding has_suffix
matches_glob name = has_prefix "mem_" name && has_suffix ".json" name

module _ {F : Type 0} where
  -- a file whose payload cannot be read is skipped
  load_memory :
      Outcome (PrecedentMemory F)
      → List (String × PrecedentMemory F)
      → List (String × PrecedentMemory F)
  load_memory (ok m) index = put m.memory_id m index
  load_memory (raise e) index = index

  -- the loop of `_load_existing_memories` from an index on, with what each reading draws
  unfoldable pub load_existing :
      (String → String × F)
      → List (String × Entries F)
      → List (String × PrecedentMemory F)
      → List (String × PrecedentMemory F)
  unfolding load_memory
  load_existing draws [] index = index
  load_existing draws ((name, payload) ∷ files) index =
      let read = from_dict (draws name).0 (draws name).1 payload in
      load_existing draws files (if matches_glob name then load_memory read index else index)

  -- `MemoryStore(path)`, on the files in the order in which the glob lists them, which is any
  unfoldable pub open_store : (String → String × F) → List (String × Entries F) → MemoryStore F
  unfolding load_existing
  open_store draws files = record { memory_index = load_existing draws files []; files = files }

  unfoldable pub add_memory : PrecedentMemory F → MemoryStore F → String × MemoryStore F
  unfolding put to_dict entries_as_json
  add_memory m store = (
    m.memory_id,
    record {
      memory_index = put m.memory_id m store.memory_index;
      files = put (file_of m.memory_id) (entries_as_json (to_dict m)) store.files;
    },
  )

  unfoldable pub get_memory : String → MemoryStore F → Option (PrecedentMemory F)
  unfolding lookup
  get_memory id store = lookup id store.memory_index

  unfoldable pub delete_memory : String → MemoryStore F → Bool × MemoryStore F
  unfolding lookup drop_key
  delete_memory id store =
      if is_some (lookup id store.memory_index)
      then (
        true,
        record {
          memory_index = drop_key id store.memory_index;
          files = drop_key (file_of id) store.files;
        },
      )
      else (false, store)

  unfoldable pub get_count : MemoryStore F → ℕ
  get_count store = length store.memory_index

-- `memories[n:]` and `memories[:n]`
unfoldable pub skip : {A : Type 0} → ℕ → List A → List A
skip zero xs = xs
skip (suc n) [] = []
skip (suc n) (x ∷ xs) = skip n xs

unfoldable pub take : {A : Type 0} → ℕ → List A → List A
take zero xs = []
take (suc n) [] = []
take (suc n) (x ∷ xs) = x ∷ take n xs

-- a filter that None and the empty text switch off
abbrev pub passes_filter : Option String → String → Bool
passes_filter none text = true
passes_filter (some wanted) text = if truthy wanted then text == wanted else true

module _ {F : Type 0} ⦃p : Platform F⦄ where
  -- put before the first memory that is not newer
  unfoldable pub insert_newest :
      PrecedentMemory F → List (PrecedentMemory F) → List (PrecedentMemory F)
  insert_newest m [] = m ∷ []
  insert_newest m (n ∷ ms) =
      let rest = insert_newest m ms in
      if p.lt m.created_at n.created_at then n ∷ rest else m ∷ n ∷ ms

  -- `sort(key=created_at, reverse=True)`, which keeps the order of equals
  unfoldable pub sort_newest : List (PrecedentMemory F) → List (PrecedentMemory F)
  unfolding insert_newest
  sort_newest [] = []
  sort_newest (m ∷ ms) = insert_newest m (sort_newest ms)

  -- the memories that pass the three filters
  unfoldable pub matching :
      Option String → Option String → Option String → MemoryStore F → List (PrecedentMemory F)
  matching domain signature outcome store =
      keep (λ m. passes_filter outcome m.outcome)
        (keep (λ m. passes_filter signature m.task_signature)
          (keep (λ m. passes_filter domain m.domain_label) (map (λ e. e.1) store.memory_index)))

  -- `list_memories`, for a limit and an offset that are not negative
  unfoldable pub list_memories :
      Option String
      → Option String
      → Option String
      → ℕ
      → ℕ
      → MemoryStore F
      → List (PrecedentMemory F)
  unfolding sort_newest matching skip take
  list_memories domain signature outcome limit offset store =
      take limit (skip offset (sort_newest (matching domain signature outcome store)))

  -- the loop of `cleanup_old_memories` over the values
  unfoldable pub cleanup : F → List (PrecedentMemory F) → ℕ × MemoryStore F → ℕ × MemoryStore F
  unfolding delete_memory
  cleanup cutoff [] done = done
  cleanup cutoff (m ∷ ms) (deleted, store) = cleanup cutoff ms (
      if p.lt m.created_at cutoff
      then (deleted + 1, (delete_memory m.memory_id store).1)
      else (deleted, store))

  -- `cleanup_old_memories`, at the cutoff
  unfoldable pub cleanup_old_memories : F → MemoryStore F → ℕ × MemoryStore F
  unfolding cleanup
  cleanup_old_memories cutoff store = cleanup cutoff (map (λ e. e.1) store.memory_index) (0, store)
