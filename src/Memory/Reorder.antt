-- ===== src/Memory/Reorder.antt =====
-- Dictionaries with the same entries in another order.
use mathlib.Core.List.{Permᴰ}
use cognitive_execution_engi.Prelude.{
  String, ◌==◌, ◌≡◌, refl, ap, ◌∙◌, Bool, true, not, ◌&&◌, ◌||◌, List, ◌∷◌, every, arith, keys,
  contains, eq_sym, all_distinct,
}

and_swap : (x y z : Bool) → x && (y && z) ≡ true → y && (x && z) ≡ true
and_swap x y z h = ground (arith, h)

apart_swap : (same x y z : Bool) → not (same || x) && (not y && z) ≡ not (same || y) && (not x && z)
apart_swap same x y z = ground arith

-- What holds of the entries of a dictionary holds of them in any other order.
module _ {A : Type 0} where
  pub every-Perm :
      (p : String × A → Bool) (xs ys : List (String × A))
      → Permᴰ xs ys
      → every p ys ≡ true
      → every p xs ≡ true
  every-Perm p _ _ Permᴰ.nil h = refl
  every-Perm p _ _ (Permᴰ.cons e perm) h = rw e (ground (arith, every-Perm p _ _ perm))
  every-Perm p _ _ (Permᴰ.swap {a' = a'} {b' = b'} {l = l} e f) h =
      rw (e, f) (and_swap (p a') (p b') (every p l) h)
  every-Perm p _ _ (Permᴰ.trans perm more) h = every-Perm p _ _ perm (every-Perm p _ _ more h)

  contains-Perm :
      (k : String) (xs ys : List (String × A))
      → Permᴰ xs ys
      → contains k (keys xs) ≡ contains k (keys ys)
  unfolding contains
  contains-Perm k _ _ Permᴰ.nil = refl
  contains-Perm k _ _ (Permᴰ.cons e perm) = rw e (ground (arith, contains-Perm k _ _ perm))
  contains-Perm k _ _ (Permᴰ.swap e f) = rw (e, f) (ground arith)
  contains-Perm k _ _ (Permᴰ.trans perm more) = contains-Perm k _ _ perm ∙ contains-Perm k _ _ more

  all_distinct-swap :
      (x y : String × A) (l : List (String × A))
      → all_distinct (keys (x ∷ y ∷ l)) ≡ all_distinct (keys (y ∷ x ∷ l))
  unfolding all_distinct contains
  all_distinct-swap x y l = rw (eq_sym y.0 x.0) (
      apart_swap (x.0 == y.0) (contains x.0 (keys l)) (contains y.0 (keys l))
        (all_distinct (keys l)))

  pub all_distinct-Perm :
      (xs ys : List (String × A)) → Permᴰ xs ys → all_distinct (keys xs) ≡ all_distinct (keys ys)
  unfolding all_distinct contains
  all_distinct-Perm _ _ Permᴰ.nil = refl
  all_distinct-Perm _ _ (Permᴰ.cons {b = b} e perm) =
      rw (e, contains-Perm b.0 _ _ perm, all_distinct-Perm _ _ perm) refl
  all_distinct-Perm _ _ (Permᴰ.swap {b = b} {a' = a'} {b' = b'} {l = l} e f) =
      ap (λ x. all_distinct (keys (x ∷ b ∷ l))) e
      ∙ ap (λ y. all_distinct (keys (b' ∷ y ∷ l))) f
      ∙ all_distinct-swap b' a' l
  all_distinct-Perm _ _ (Permᴰ.trans perm more) =
      all_distinct-Perm _ _ perm ∙ all_distinct-Perm _ _ more
