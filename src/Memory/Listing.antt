-- ===== src/Memory/Listing.antt =====
-- src/cee_core/memory_store.py: what `list_memories` gives.
use cognitive_execution_engi.Prelude.{
  ℕ, zero, suc, ◌+◌, ◌≤◌, String, ◌≡◌, refl, ◌∙◌, ap, sym, ◌&&◌, ◌++◌, not, Bool, true, false,
  Bool-cases, inl, inr, List, [], ◌∷◌, length, arith, Option,
}
use mathlib.Core.List.{Perm}
use mathlib.Core.List.Perm
use native.Mathlib.Nat.{zero-add, suc-add}
use cognitive_execution_engi.Value.{Platform}
use cognitive_execution_engi.Memory.{
  PrecedentMemory, MemoryStore, insert_newest, sort_newest, matching, list_memories, take, skip,
}

module _ {A : Type 0} where
  length-take : (n : ℕ) (xs : List A) → length (take n xs) ≤ n
  unfolding take
  length-take zero xs = omega arith
  length-take (suc n) [] = omega arith
  length-take (suc n) (x ∷ xs) = omega (arith, length-take n xs)

  take-all : (n : ℕ) (xs : List A) → length xs ≤ n → take n xs ≡ xs
  unfolding take
  take-all zero [] h = refl
  take-all zero (x ∷ xs) h = absurd (omega arith)
  take-all (suc n) [] h = refl
  take-all (suc n) (x ∷ xs) h = ap (λ l. x ∷ l) (take-all n xs (omega arith))

  take-nil : (n : ℕ) → take {A = A} n [] ≡ []
  unfolding take
  take-nil zero = refl
  take-nil (suc n) = refl

  -- two pages in a row are one page
  take-skip :
      (l n o : ℕ) (xs : List A)
      → take l (skip o xs) ++ take n (skip (o + l) xs) ≡ take (l + n) (skip o xs)
  unfolding take skip
  take-skip zero n zero xs = rw (zero-add) refl
  take-skip zero n (suc o) [] = rw (suc-add, zero-add) refl
  take-skip zero n (suc o) (x ∷ xs) = rw suc-add (take-skip zero n o xs)
  take-skip (suc l) n zero [] = rw (suc-add, zero-add) (take-nil n)
  take-skip (suc l) n zero (x ∷ xs) =
      rw (suc-add, zero-add)
        (ap (λ r. x ∷ r)
          (ap (λ k. take l xs ++ take n (skip k xs)) (sym (zero-add l)) ∙ take-skip l n zero xs))
  take-skip (suc l) n (suc o) [] = rw (suc-add, suc-add) (take-nil n)
  take-skip (suc l) n (suc o) (x ∷ xs) = rw suc-add (take-skip (suc l) n o xs)

module _ {F : Type 0} ⦃p : Platform F⦄ where
  -- no memory is newer than the one before it
  unfoldable pub newest_first : List (PrecedentMemory F) → Bool
  newest_first [] = true
  newest_first (m ∷ []) = true
  newest_first (m ∷ n ∷ ms) = not (p.lt m.created_at n.created_at) && newest_first (n ∷ ms)

  newest_first-tail :
      (m : PrecedentMemory F) (ms : List (PrecedentMemory F))
      → newest_first (m ∷ ms) ≡ true
      → newest_first ms ≡ true
  unfolding newest_first
  newest_first-tail m [] h = refl
  newest_first-tail m (n ∷ ms) h = ground arith

  newest_first-skip :
      (o : ℕ) (ms : List (PrecedentMemory F))
      → newest_first ms ≡ true
      → newest_first (skip o ms) ≡ true
  unfolding skip
  newest_first-skip zero ms h = h
  newest_first-skip (suc o) [] h = h
  newest_first-skip (suc o) (m ∷ ms) h = newest_first-skip o ms (newest_first-tail m ms h)

  newest_first-take :
      (n : ℕ) (ms : List (PrecedentMemory F))
      → newest_first ms ≡ true
      → newest_first (take n ms) ≡ true
  unfolding take newest_first
  newest_first-take zero ms h = refl
  newest_first-take (suc n) [] h = refl
  newest_first-take (suc zero) (m ∷ ms) h = refl
  newest_first-take (suc (suc n)) (m ∷ []) h = refl
  newest_first-take (suc (suc n)) (m ∷ k ∷ ms) h =
      ground (arith, newest_first-take (suc n) (k ∷ ms))

  insert_newest-Perm :
      (m : PrecedentMemory F) (ms : List (PrecedentMemory F)) → Perm (insert_newest m ms) (m ∷ ms)
  unfolding insert_newest
  insert_newest-Perm m [] = Perm.refl (m ∷ [])
  insert_newest-Perm m (n ∷ ms) = elim (Bool-cases (p.lt m.created_at n.created_at)) [
    | inl h ↦ rw h (Perm.trans (Perm.cons n (insert_newest-Perm m ms)) (Perm.swap m n ms))
    | inr h ↦ rw h (Perm.refl (m ∷ n ∷ ms))
  ]

  sort_newest-Perm : (ms : List (PrecedentMemory F)) → Perm (sort_newest ms) ms
  unfolding sort_newest
  sort_newest-Perm [] = Perm.refl []
  sort_newest-Perm (m ∷ ms) =
      Perm.trans (insert_newest-Perm m (sort_newest ms)) (Perm.cons m (sort_newest-Perm ms))

  length-insert_newest :
      (m : PrecedentMemory F) (ms : List (PrecedentMemory F))
      → length (insert_newest m ms) ≡ suc (length ms)
  unfolding insert_newest
  length-insert_newest m [] = refl
  length-insert_newest m (n ∷ ms) = ground (arith, length-insert_newest m ms)

  length-sort_newest : (ms : List (PrecedentMemory F)) → length (sort_newest ms) ≡ length ms
  unfolding sort_newest
  length-sort_newest [] = refl
  length-sort_newest (m ∷ ms) =
      length-insert_newest m (sort_newest ms) ∙ ap suc (length-sort_newest ms)

  module _ (asym : (x y : F) → p.lt x y ≡ true → p.lt y x ≡ false) where
    insert_newest-newest_first :
        (m : PrecedentMemory F) (ms : List (PrecedentMemory F))
        → newest_first ms ≡ true
        → newest_first (insert_newest m ms) ≡ true
    unfolding newest_first insert_newest
    insert_newest-newest_first m [] h = refl
    insert_newest-newest_first m (n ∷ []) h = ground (arith, asym m.created_at n.created_at)
    insert_newest-newest_first m (n ∷ k ∷ ms) h =
        ground (arith, asym m.created_at n.created_at, insert_newest-newest_first m (k ∷ ms))

    sort_newest-newest_first :
        (ms : List (PrecedentMemory F)) → newest_first (sort_newest ms) ≡ true
    unfolding sort_newest newest_first
    sort_newest-newest_first [] = refl
    sort_newest-newest_first (m ∷ ms) =
        insert_newest-newest_first m (sort_newest ms) (sort_newest-newest_first ms)

    -- A listing has at most `limit` memories and the newest first; the listing of the next `more`
    -- memories continues it, so that both are one listing of `limit + more`; and the first listing, where
    -- the limit is not exceeded, is a rearrangement of the memories that pass the filters. This needs
    -- that `<` on times holds one way only.
    pub list_memories-pages :
        (domain signature outcome : Option String) (limit more offset : ℕ) (store : MemoryStore F)
        → let list = list_memories {F = F} domain signature outcome in
          (length (list limit offset store) ≤ limit)
          × (newest_first (list limit offset store) ≡ true)
          × (list limit offset store ++ list more (offset + limit) store
              ≡ list (limit + more) offset store)
          × (length (matching domain signature outcome store) ≤ limit
              → Perm (list limit 0 store) (matching domain signature outcome store))
    unfolding list_memories skip
    list_memories-pages domain signature outcome limit more offset store =
        let found = matching domain signature outcome store in
        (
          length-take limit (skip offset (sort_newest found)),
          newest_first-take limit _
              (newest_first-skip offset (sort_newest found) (sort_newest-newest_first found)),
          take-skip limit more offset (sort_newest found),
          λ h.
              rw (take-all limit (sort_newest found) (omega (arith, length-sort_newest found)))
                (sort_newest-Perm found),
        )
