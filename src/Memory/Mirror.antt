-- ===== src/Memory/Mirror.antt =====
-- src/cee_core/memory_store.py: the files mirror the index, and a store that is opened again is the same.
use cognitive_execution_engi.Prelude.{
  String, ◌==◌, eq_iff, eq_refl, ◌≡◌, refl, ap, sym, ◌∙◌, Bool, true, false, Bool-cases, inl, inr,
  List, [], ◌∷◌, map, every, arith, some, none, is_some, if◌then◌else◌, put, lookup, drop_key, keys,
  all_distinct, eq_sym, lookup-put, lookup-drop_key, all_distinct-put, all_distinct-drop_key,
}
use text.Mathlib.TextLemmas.{append_cancel_right}
use cognitive_execution_engi.Value.{Entries}
use cognitive_execution_engi.Value.Json.{entries_as_json}
use cognitive_execution_engi.Memory.{
  PrecedentMemory, MemoryStore, to_dict, file_of, add_memory, get_memory, delete_memory,
}

same_file : (i j : String) → (file_of i == file_of j) ≡ (i == j)
same_file i j = elim (Bool-cases (i == j)) [
  | inl h ↦ rw ((eq_iff i j).0 h) (eq_refl (file_of j) ∙ sym (eq_refl j))
  | inr h ↦ elim (Bool-cases (file_of i == file_of j)) [
    | inl k ↦ absurd (
        cc (
          h,
          (eq_iff i j).1 (append_cancel_right i j ".json" ((eq_iff (file_of i) (file_of j)).0 k)),
        ))
    | inr k ↦ k ∙ sym h
  ]
]

module _ {F : Type 0} where
  -- the file of an entry of the index
  abbrev file_entry : String × PrecedentMemory F → String × Entries F
  file_entry e = (file_of e.0, entries_as_json (to_dict e.1))

  put-files :
      (k : String) (m : PrecedentMemory F) (d : List (String × PrecedentMemory F))
      → put (file_of k) (entries_as_json (to_dict m)) (map file_entry d)
        ≡ map file_entry (put k m d)
  unfolding put
  put-files k m [] = refl
  put-files k m ((j, u) ∷ d) = rw (same_file j k) (ground (arith, put-files k m d))

  drop_key-files :
      (k : String) (d : List (String × PrecedentMemory F))
      → drop_key (file_of k) (map file_entry d) ≡ map file_entry (drop_key k d)
  unfolding drop_key
  drop_key-files k [] = refl
  drop_key-files k ((j, u) ∷ d) = rw (same_file j k) (ground (arith, drop_key-files k d))

  -- an entry whose key is the id of its memory
  abbrev pub is_keyed : String × PrecedentMemory F → Bool
  is_keyed e = e.1.memory_id == e.0

  put-is_keyed :
      (m : PrecedentMemory F) (d : List (String × PrecedentMemory F))
      → every is_keyed d ≡ true
      → every is_keyed (put m.memory_id m d) ≡ true
  unfolding put
  put-is_keyed m [] h = ground (arith, eq_refl m.memory_id)
  put-is_keyed m ((j, u) ∷ d) h = ground (arith, put-is_keyed m d, eq_sym j m.memory_id)

  drop_key-is_keyed :
      (k : String) (d : List (String × PrecedentMemory F))
      → every is_keyed d ≡ true
      → every is_keyed (drop_key k d) ≡ true
  unfolding drop_key
  drop_key-is_keyed k [] h = refl
  drop_key-is_keyed k ((j, u) ∷ d) h = ground (arith, drop_key-is_keyed k d)

  -- The files are the payloads of the memories of the index, as JSON, each under its id, and no id is there
  -- twice.
  pub record Mirrors (store : MemoryStore F) : Type 0 where
    pub on_disk :
        store.files ≡ map (λ e. (file_of e.0, entries_as_json (to_dict e.1))) store.memory_index
    pub keyed : every is_keyed store.memory_index ≡ true
    pub distinct : all_distinct (keys store.memory_index) ≡ true

  -- Adding a memory keeps the files a mirror of the index; the memory is then found by its id, and
  -- every other id finds what it found before.
  pub add_memory-Mirrors :
      (m : PrecedentMemory F) (store : MemoryStore F)
      → Mirrors store
      → let after = (add_memory m store).1 in
        Mirrors after
        × ((id : String)
            → get_memory id after ≡ (if m.memory_id == id then some m else get_memory id store))
  unfolding add_memory get_memory
  add_memory-Mirrors m store h = (
    record {
      on_disk =
          ap (put (file_of m.memory_id) (entries_as_json (to_dict m))) h.on_disk
          ∙ put-files m.memory_id m store.memory_index;
      keyed = put-is_keyed m store.memory_index h.keyed;
      distinct = all_distinct-put m.memory_id m store.memory_index h.distinct;
    },
    λ id. lookup-put id m.memory_id m store.memory_index,
  )

  -- Deleting tells whether the id was found, and keeps the files a mirror of the index; afterwards the
  -- id finds nothing, and every other id finds what it found before.
  pub delete_memory-Mirrors :
      (id : String) (store : MemoryStore F)
      → Mirrors store
      → let (found, after) = delete_memory id store in
        Mirrors after
        × (found ≡ is_some (get_memory id store))
        × ((j : String) → get_memory j after ≡ (if id == j then none else get_memory j store))
  unfolding delete_memory get_memory
  delete_memory-Mirrors id store h = elim (Bool-cases (is_some (lookup id store.memory_index))) [
    | inl found ↦ rw found (
      record {
        on_disk = ap (drop_key (file_of id)) h.on_disk ∙ drop_key-files id store.memory_index;
        keyed = drop_key-is_keyed id store.memory_index h.keyed;
        distinct = all_distinct-drop_key id store.memory_index h.distinct;
      },
      refl,
      λ j. lookup-drop_key j id store.memory_index h.distinct,
    )
    | inr missing ↦ rw missing (h, refl, λ j. ground (arith, not_there j missing))
  ]
    where
      not_there :
          (j : String)
          → is_some (lookup id store.memory_index) ≡ false
          → (id == j) ≡ true
          → lookup j store.memory_index ≡ none
      not_there j missing same =
          ap (λ x. lookup x store.memory_index) (sym ((eq_iff id j).0 same)) ∙ ground arith
