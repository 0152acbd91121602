-- ===== src/Memory/Reopen.antt =====
-- src/cee_core/memory_store.py: a store that is opened again on its files.
use cognitive_execution_engi.Prelude.{
  String, ◌==◌, eq_iff, eq_refl, Bool-cases, inl, inr, ◌<>◌, ◌≡◌, refl, ap, sym, ◌∙◌, Bool, true,
  false, List, [], ◌∷◌, ◌++◌, map, append_assoc, append-nil, every, arith, has_prefix, strip_prefix,
  if◌then◌else◌, put, keys, contains, Option, none, some, all_distinct, put-absent,
}
use text.Mathlib.TextLemmas.{cons-append, nil-append}
use mathlib.Core.List.{Permᴰ}
use cognitive_execution_engi.Value.{Value, Entries, of_list}
use cognitive_execution_engi.Serial.{dict_of, texts, write_each}
use cognitive_execution_engi.Value.Plain.{
  entries_plain, entries_as_json-entries_plain, entries_as_json_plain,
}
use cognitive_execution_engi.Value.Json.{as_json, each_as_json, entries_as_json}
use cognitive_execution_engi.Memory.{
  PrecedentMemory, MemoryStore, text_or_null, vector_or_null, to_dict, from_dict, file_of,
  has_suffix, matches_glob, load_memory, load_existing, open_store,
}
use cognitive_execution_engi.Memory.Reorder.{every-Perm, all_distinct-Perm}
use cognitive_execution_engi.Memory.Payload.{memory_back}
use cognitive_execution_engi.Memory.Mirror.{Mirrors, is_keyed}

prefix-append : (p s t : String) → has_prefix p s ≡ true → has_prefix p (s <> t) ≡ true
unfolding strip_prefix
prefix-append String.[] s t h = refl
prefix-append (String.◌∷◌ c p) String.[] t h = absurd (cc)
prefix-append (String.◌∷◌ c p) (String.◌∷◌ d s) t h =
    rw cons-append (ground (arith, prefix-append p s t))

has_suffix_refl : (p : String) → has_suffix p p ≡ true
unfolding has_suffix
has_suffix_refl String.[] = eq_refl String.[]
has_suffix_refl (String.◌∷◌ c p) = rw (eq_refl (String.◌∷◌ c p)) refl

has_suffix-append : (p s : String) → has_suffix p (s <> p) ≡ true
unfolding has_suffix
has_suffix-append p String.[] = rw nil-append (has_suffix_refl p)
has_suffix-append p (String.◌∷◌ c s) = rw cons-append (ground (arith, has_suffix-append p s))

matches_own_file : (id : String) → has_prefix "mem_" id ≡ true → matches_glob (file_of id) ≡ true
unfolding matches_glob
matches_own_file id h = rw (prefix-append "mem_" id ".json" h, has_suffix-append ".json" id) refl

module _ {A : Type 0} where
  pub contains-middle :
      (j : String) (m : A) (acc d : List (String × A))
      → contains j (keys (acc ++ (j, m) ∷ d)) ≡ true
  unfolding contains
  contains-middle j m [] d = ground (arith, eq_refl j)
  contains-middle j m ((i, u) ∷ acc) d = ground (arith, contains-middle j m acc d)

  pub absent-before :
      (j : String) (m : A) (acc d : List (String × A))
      → all_distinct (keys (acc ++ (j, m) ∷ d)) ≡ true
      → contains j (keys acc) ≡ false
  unfolding contains all_distinct
  absent-before j m [] d h = refl
  absent-before j m ((i, u) ∷ acc) d h = elim (Bool-cases (i == j)) [
    | inl e ↦ absurd (
        cc (
          h,
          ap (λ x. contains x (keys (acc ++ (j, m) ∷ d))) ((eq_iff i j).0 e),
          contains-middle j m acc d,
        ))
    | inr e ↦ rw e (absent-before j m acc d (ground arith))
  ]

module _ {F : Type 0} where
  -- Values without tuples are read as they were written.
  each_as_json-of_list :
      {A : Type 0} (write : A → Value F) (xs : List A)
      → ((x : A) → as_json (write x) ≡ write x)
      → each_as_json (of_list (map write xs)) ≡ of_list (map write xs)
  unfolding each_as_json of_list
  each_as_json-of_list write [] h = refl
  each_as_json-of_list write (x ∷ xs) h = rw (h x, each_as_json-of_list write xs h) refl

  as_json-texts : (xs : List String) → as_json (texts {F = F} xs) ≡ texts xs
  unfolding texts write_each as_json
  as_json-texts xs = ap Value.list (each_as_json-of_list _ xs (λ s. refl))

  as_json-text_or_null : (s : Option String) → as_json (text_or_null {F = F} s) ≡ text_or_null s
  unfolding as_json
  as_json-text_or_null none = refl
  as_json-text_or_null (some s) = refl

  as_json-vector_or_null : (v : Option (List F)) → as_json (vector_or_null v) ≡ vector_or_null v
  unfolding vector_or_null write_each as_json
  as_json-vector_or_null none = refl
  as_json-vector_or_null (some xs) = ap Value.list (each_as_json-of_list _ xs (λ x. refl))

  -- the memory as its file gives it back: the tuples of its state difference are lists
  abbrev pub reread : PrecedentMemory F → PrecedentMemory F
  reread m = record m { state_diff = entries_as_json m.state_diff }

  abbrev pub reread_entry : String × PrecedentMemory F → String × PrecedentMemory F
  reread_entry e = (e.0, reread e.1)

  -- the file of an entry
  abbrev pub file_entry : String × PrecedentMemory F → String × Entries F
  file_entry e = (file_of e.0, entries_as_json (to_dict e.1))

  stored_lem : (m : PrecedentMemory F) → entries_as_json (to_dict m) ≡ to_dict (reread m)
  unfolding entries_as_json to_dict dict_of
  stored_lem m =
      rw
        (
          as_json-texts m.evidence_refs,
          as_json-text_or_null m.failure_mode,
          as_json-text_or_null m.approval_result,
          as_json-vector_or_null m.semantic_vector,
        )
        refl

  -- one file of the loop
  loaded :
      (draw : String × F) (j : String) (m : PrecedentMemory F)
      (acc : List (String × PrecedentMemory F))
      → has_prefix "mem_" j ≡ true
      → m.memory_id ≡ j
      → contains j (keys acc) ≡ false
      → (if matches_glob (file_of j)
          then load_memory (from_dict draw.0 draw.1 (entries_as_json (to_dict m))) acc
          else acc)
        ≡ acc ++ (j, reread m) ∷ []
  unfolding load_memory
  loaded draw j m acc h same absent =
      rw (matches_own_file j h, stored_lem m, memory_back draw.0 draw.1 (reread m))
        (ap (λ k. put k (reread m) acc) same ∙ put-absent j (reread m) acc absent)

  load_existing-files :
      (draws : String → String × F) (d acc : List (String × PrecedentMemory F))
      → every (λ e. has_prefix "mem_" e.0) d ≡ true
      → every is_keyed d ≡ true
      → all_distinct (keys (acc ++ map reread_entry d)) ≡ true
      → load_existing draws (map file_entry d) acc ≡ acc ++ map reread_entry d
  unfolding load_existing load_memory
  load_existing-files draws [] acc h k n = sym (append-nil acc)
  load_existing-files draws ((j, m) ∷ d) acc h k n =
      ap (load_existing draws (map file_entry d)) (
        loaded (draws (file_of j)) j m acc (ground arith) ((eq_iff m.memory_id j).0 (ground arith))
          (absent-before j (reread m) acc (map reread_entry d) n))
      ∙ load_existing-files draws d (acc ++ (j, reread m) ∷ []) (ground arith) (ground arith) (
          ap (λ l. all_distinct (keys l))
            (append_assoc acc ((j, reread m) ∷ []) (map reread_entry d))
          ∙ n)
      ∙ append_assoc acc ((j, reread m) ∷ []) (map reread_entry d)

  keys-reread : (d : List (String × PrecedentMemory F)) → keys (map reread_entry d) ≡ keys d
  keys-reread [] = refl
  keys-reread (e ∷ d) = ap (λ ks. e.0 ∷ ks) (keys-reread d)

  -- nothing in the state difference of the memory is a tuple
  abbrev pub has_plain_diff : String × PrecedentMemory F → Bool
  has_plain_diff e = entries_plain e.1.state_diff

  every-reread :
      (d : List (String × PrecedentMemory F)) → every has_plain_diff (map reread_entry d) ≡ true
  every-reread [] = refl
  every-reread (e ∷ d) = rw (entries_as_json-entries_plain e.1.state_diff, every-reread d) refl

  reread_plain :
      (d : List (String × PrecedentMemory F))
      → every has_plain_diff d ≡ true
      → map reread_entry d ≡ d
  reread_plain [] h = refl
  reread_plain (e ∷ d) h =
      rw
        (
          entries_as_json_plain e.1.state_diff (ground (arith, h)),
          reread_plain d (ground (arith, h)),
        )
        refl

  -- A store whose files mirror its index, and whose ids all begin with `mem_` as the drawn ones do, is
  -- opened again on its files, which are listed in any order. The new index has the memories of the
  -- old one, in the order of the listing, each as JSON gives it back: without tuples in its state
  -- difference, and otherwise the same; and if there were none, it is the listing itself.
  pub open_store-reread :
      (draws : String → String × F) (store : MemoryStore F)
      (listed : List (String × PrecedentMemory F))
      → Mirrors store
      → every (λ e. has_prefix "mem_" e.0) store.memory_index ≡ true
      → Permᴰ listed store.memory_index
      → let index = (open_store draws (map file_entry listed)).memory_index in
        (index ≡ map reread_entry listed)
        × (every has_plain_diff index ≡ true)
        × (every has_plain_diff listed ≡ true → index ≡ listed)
  unfolding open_store
  open_store-reread draws store listed h ids perm =
      let same =
        load_existing-files draws listed []
          (every-Perm (λ e. has_prefix "mem_" e.0) listed store.memory_index perm ids)
          (every-Perm is_keyed listed store.memory_index perm h.keyed)
          (ap all_distinct (keys-reread listed)
            ∙ all_distinct-Perm listed store.memory_index perm
            ∙ h.distinct) in
      (same, rw same (every-reread listed), λ plain. same ∙ reread_plain listed plain)
