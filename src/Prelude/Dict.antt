-- ===== src/Prelude/Dict.antt =====
-- `dict`: the entries in insertion order, each key once.
use mathlib.Core.Path.{◌≡◌, refl, ap, ◌∙◌, sym}
use mathlib.Core.Logic.{inl, inr}
use mathlib.Core.Bool.{true, false, ◌||◌}
use mathlib.Core.Option.{Option, none, some}
use mathlib.Core.List.{List, [], ◌∷◌, ◌++◌}
use Prim.Native.String.{String}
use native.Mathlib.Omega.{arith}
use text.Mathlib.Text.{◌==◌}
use text.Mathlib.TextEquality.{eq_iff}
use text.Mathlib.TextPositions.{eq_refl}
use cognitive_execution_engi.Prelude.Tests.{if◌then◌else◌, Bool-cases, is_some}
use cognitive_execution_engi.Prelude.FromKeys.{contains, all_distinct}

-- Texts that equal a third one are equal.
eq_euclid : (i j k : String) → (i == k) ≡ true → (j == k) ≡ true → (i == j) ≡ true
eq_euclid i j k h l = ap (λ x. i == x) ((eq_iff j k).0 l) ∙ h

pub eq_sym : (i j : String) → (i == j) ≡ (j == i)
eq_sym i j = elim (Bool-cases (i == j)) [
  | inl h ↦ h ∙ sym (eq_euclid j i j (eq_refl j) h)
  | inr h ↦ elim (Bool-cases (j == i)) [
    | inl k ↦ absurd (cc (eq_euclid i j i (eq_refl i) k))
    | inr k ↦ h ∙ sym k
  ]
]

module _ {A : Type 0} where
  abbrev pub keys : List (String × A) → List String
  keys [] = []
  keys ((j, u) ∷ d) = j ∷ keys d

  -- `d[k] = v`
  unfoldable pub put : String → A → List (String × A) → List (String × A)
  put k v [] = (k, v) ∷ []
  put k v ((j, u) ∷ d) = let rest = put k v d in if j == k then (j, v) ∷ d else (j, u) ∷ rest

  -- `d.get(k)`
  unfoldable pub lookup : String → List (String × A) → Option A
  lookup k [] = none
  lookup k ((j, u) ∷ d) = let rest = lookup k d in if j == k then some u else rest

  -- `del d[k]`, where there is one
  unfoldable pub drop_key : String → List (String × A) → List (String × A)
  drop_key k [] = []
  drop_key k ((j, u) ∷ d) = let rest = drop_key k d in if j == k then d else (j, u) ∷ rest

  pub is_some-lookup :
      (k : String) (d : List (String × A)) → is_some (lookup k d) ≡ contains k (keys d)
  unfolding lookup contains
  is_some-lookup k [] = refl
  is_some-lookup k ((j, u) ∷ d) = ground (arith, is_some-lookup k d)

  pub lookup-put :
      (k j : String) (v : A) (d : List (String × A))
      → lookup k (put j v d) ≡ (if j == k then some v else lookup k d)
  unfolding lookup put
  lookup-put k j v [] = refl
  lookup-put k j v ((i, u) ∷ d) = elim (Bool-cases (i == j)) [
    | inl h ↦ rw (h, (eq_iff i j).0 h) (ground arith)
    | inr h ↦ rw (h, lookup-put k j v d) (ground (arith, eq_euclid i j k))
  ]

  pub put-absent :
      (k : String) (v : A) (d : List (String × A))
      → contains k (keys d) ≡ false
      → put k v d ≡ d ++ (k, v) ∷ []
  unfolding put contains
  put-absent k v [] h = refl
  put-absent k v ((j, u) ∷ d) h = ground (arith, put-absent k v d)

  pub contains-put :
      (k j : String) (v : A) (d : List (String × A))
      → contains k (keys (put j v d)) ≡ ((j == k) || contains k (keys d))
  unfolding put contains
  contains-put k j v [] = refl
  contains-put k j v ((i, u) ∷ d) = elim (Bool-cases (i == j)) [
    | inl h ↦ rw (h, (eq_iff i j).0 h) (ground arith)
    | inr h ↦ rw h (ground (arith, contains-put k j v d))
  ]

  pub all_distinct-put :
      (j : String) (v : A) (d : List (String × A))
      → all_distinct (keys d) ≡ true
      → all_distinct (keys (put j v d)) ≡ true
  unfolding put all_distinct contains
  all_distinct-put j v [] h = refl
  all_distinct-put j v ((i, u) ∷ d) h = elim (Bool-cases (i == j)) [
    | inl e ↦ rw e h
    | inr e ↦ rw e (ground (arith, all_distinct-put j v d, contains-put i j v d, eq_sym i j))
  ]

  pub contains-drop_key :
      (k j : String) (d : List (String × A))
      → contains k (keys d) ≡ false
      → contains k (keys (drop_key j d)) ≡ false
  unfolding drop_key contains
  contains-drop_key k j [] h = refl
  contains-drop_key k j ((i, u) ∷ d) h = ground (arith, contains-drop_key k j d)

  pub all_distinct-drop_key :
      (j : String) (d : List (String × A))
      → all_distinct (keys d) ≡ true
      → all_distinct (keys (drop_key j d)) ≡ true
  unfolding drop_key all_distinct
  all_distinct-drop_key j [] h = refl
  all_distinct-drop_key j ((i, u) ∷ d) h =
      ground (arith, all_distinct-drop_key j d, contains-drop_key i j d)

  same_absent :
      (i j k : String) (d : List (String × A))
      → (i == j) ≡ true
      → (j == k) ≡ true
      → contains i (keys d) ≡ false
      → contains k (keys d) ≡ false
  same_absent i j k d e h a =
      ap (λ x. contains x (keys d)) (sym ((eq_iff i j).0 e ∙ (eq_iff j k).0 h)) ∙ a

  -- A key that is not there has nothing.
  pub lookup-absent :
      (k : String) (d : List (String × A)) → contains k (keys d) ≡ false → lookup k d ≡ none
  unfolding lookup contains
  lookup-absent k [] h = refl
  lookup-absent k ((i, u) ∷ d) h = ground (arith, lookup-absent k d)

  pub lookup-drop_key :
      (k j : String) (d : List (String × A))
      → all_distinct (keys d) ≡ true
      → lookup k (drop_key j d) ≡ (if j == k then none else lookup k d)
  unfolding lookup drop_key all_distinct
  lookup-drop_key k j [] h = ground arith
  lookup-drop_key k j ((i, u) ∷ d) h = elim (Bool-cases (i == j)) [
    | inl e ↦ rw (e, (eq_iff i j).0 e) (ground (arith, lookup-absent k d, same_absent i j k d))
    | inr e ↦ rw (e, lookup-drop_key k j d (ground arith)) (ground (arith, eq_euclid i j k))
  ]
