-- ===== src/Memory/Cleanup.antt =====
-- src/cee_core/memory_store.py: what `cleanup_old_memories` leaves.
use cognitive_execution_engi.Prelude.{
  ℕ, ◌+◌, String, eq_iff, eq_refl, ◌≡◌, refl, ◌∙◌, ap, sym, ◌++◌, not, Bool, true, false,
  Bool-cases, inl, inr, List, [], ◌∷◌, map, keep, length, every, arith, append_assoc, if◌then◌else◌,
  count_if, keys, drop_key, contains, all_distinct, is_some, lookup, is_some-lookup,
}
use cognitive_execution_engi.Value.{Platform}
use cognitive_execution_engi.Memory.{
  PrecedentMemory, MemoryStore, delete_memory, cleanup, cleanup_old_memories, get_count,
}
use cognitive_execution_engi.Memory.Mirror.{Mirrors, is_keyed, delete_memory-Mirrors}
use cognitive_execution_engi.Memory.Reopen.{absent-before, contains-middle}

module _ {A : Type 0} where
  drop_key-middle :
      (j : String) (m : A) (kept d : List (String × A))
      → contains j (keys kept) ≡ false
      → drop_key j (kept ++ (j, m) ∷ d) ≡ kept ++ d
  unfolding drop_key contains
  drop_key-middle j m [] d h = rw (eq_refl j) refl
  drop_key-middle j m ((i, u) ∷ kept) d h = ground (arith, drop_key-middle j m kept d)

module _ {F : Type 0} ⦃p : Platform F⦄ where
  -- a memory created before the cutoff
  abbrev is_old : F → String × PrecedentMemory F → Bool
  is_old cutoff e = p.lt e.1.created_at cutoff

  counted :
      (cutoff : F) (d : List (String × PrecedentMemory F))
      → 0 + count_if (is_old cutoff) d + length (keep (λ e. not (is_old cutoff e)) d) ≡ length d
  counted cutoff [] = omega arith
  counted cutoff (e ∷ d) = ground (arith, counted cutoff d)

  delete_memory-middle :
      (j : String) (m : PrecedentMemory F) (kept d : List (String × PrecedentMemory F))
      (store : MemoryStore F)
      → store.memory_index ≡ kept ++ (j, m) ∷ d
      → all_distinct (keys store.memory_index) ≡ true
      → (delete_memory j store).1.memory_index ≡ kept ++ d
  unfolding delete_memory
  delete_memory-middle j m kept d store e distinct =
      let found : is_some (lookup j store.memory_index) ≡ true =
        is_some-lookup j store.memory_index
        ∙ ap (λ l. contains j (keys l)) e
        ∙ contains-middle j m kept d in
      rw found (
        ap (drop_key j) e
        ∙ drop_key-middle j m kept d
            (absent-before j m kept d (sym (ap (λ l. all_distinct (keys l)) e) ∙ distinct)))

  cleanup-middle :
      (cutoff : F) (d kept : List (String × PrecedentMemory F)) (n : ℕ) (store : MemoryStore F)
      → every is_keyed d ≡ true
      → store.memory_index ≡ kept ++ d
      → Mirrors store
      → (final : MemoryStore F) × (cleanup cutoff (map (λ e. e.1) d) (n, store)
          ≡ (n + count_if (is_old cutoff) d, final))
        × (final.memory_index ≡ kept ++ keep (λ e. not (is_old cutoff e)) d)
        × Mirrors final
  unfolding cleanup
  cleanup-middle cutoff [] kept n store k e mirrors =
      (store, ap (λ c. (c, store)) (omega arith), e, mirrors)
  cleanup-middle cutoff ((j, m) ∷ d) kept n store k e mirrors =
      elim (Bool-cases (p.lt m.created_at cutoff)) [
        | inl old ↦
            let (final, ran, left, ok) =
              cleanup-middle cutoff d kept (n + 1) (delete_memory m.memory_id store).1
                (ground arith)
                (ap (λ i. (delete_memory i store).1.memory_index) same
                  ∙ delete_memory-middle j m kept d store e mirrors.distinct)
                (delete_memory-Mirrors m.memory_id store mirrors).0 in
            (
              final,
              ap
                    (λ b.
                      cleanup cutoff (map (λ e. e.1) d)
                        (if b then (n + 1, (delete_memory m.memory_id store).1) else (n, store)))
                    old
                  ∙ ran
                  ∙ ap (λ c. (c, final)) (ground (arith, old)),
              left ∙ ap (λ l. kept ++ l) (ground (arith, old)),
              ok,
            )
        | inr new ↦
            let (final, ran, left, ok) =
              cleanup-middle cutoff d (kept ++ (j, m) ∷ []) n store (ground arith)
                (e ∙ sym (append_assoc kept ((j, m) ∷ []) d)) mirrors in
            (
              final,
              ap
                    (λ b.
                      cleanup cutoff (map (λ e. e.1) d)
                        (if b then (n + 1, (delete_memory m.memory_id store).1) else (n, store)))
                    new
                  ∙ ran
                  ∙ ap (λ c. (c, final)) (ground (arith, new)),
              left ∙ append_assoc kept ((j, m) ∷ []) _ ∙ ap (λ l. kept ++ l) (ground (arith, new)),
              ok,
            )
      ]
    where
      same : m.memory_id ≡ j
      same = (eq_iff m.memory_id j).0 (ground arith)

  -- A cleanup of a store whose files mirror its index deletes exactly the memories that were created
  -- before the cutoff, from the index and from the files, keeps the others in their order, and returns
  -- the number of those deleted.
  pub cleanup_old_memories-Mirrors :
      (cutoff : F) (store : MemoryStore F)
      → Mirrors store
      → let (deleted, final) = cleanup_old_memories cutoff store in
        (final.memory_index ≡ keep (λ e. not (p.lt e.1.created_at cutoff)) store.memory_index)
        × Mirrors final
        × (deleted + get_count final ≡ get_count store)
  unfolding cleanup_old_memories get_count
  cleanup_old_memories-Mirrors cutoff store mirrors =
      let (final, ran, left, ok) =
        cleanup-middle cutoff store.memory_index [] 0 store mirrors.keyed refl mirrors in
      rw ran (
        left,
        ok,
        ap (λ l. 0 + count_if (is_old cutoff) store.memory_index + length l) left
            ∙ counted cutoff store.memory_index,
      )
