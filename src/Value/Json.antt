-- ===== src/Value/Json.antt =====
-- A value that `json.dump` wrote and `json.load` read, as src/cee_core/memory_store.py does it.
use cognitive_execution_engi.Value
use cognitive_execution_engi.Value.{Value, Values, Entries}

module _ {F : Type 0} where
  -- what `json.load` reads of a value that `json.dump` wrote: a tuple is an array, which is read as a
  -- list
  unfoldable mutual
    pub as_json : Value F → Value F
    as_json (Value.list vs) = Value.list (each_as_json vs)
    as_json (Value.tuple vs) = Value.list (each_as_json vs)
    as_json (Value.dict d) = Value.dict (entries_as_json d)
    as_json v = v

    pub each_as_json : Values F → Values F
    each_as_json Value.nil = Value.nil
    each_as_json (Value.cons v vs) = Value.cons (as_json v) (each_as_json vs)

    pub entries_as_json : Entries F → Entries F
    entries_as_json Value.end = Value.end
    entries_as_json (Value.entry k v d) = Value.entry k (as_json v) (entries_as_json d)
