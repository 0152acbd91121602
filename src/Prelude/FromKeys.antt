-- ===== src/Prelude/FromKeys.antt =====
-- `x in xs` on texts, and `dict.fromkeys(xs)`: the texts of a list, each kept where it comes first.
use mathlib.Core.Path.{◌≡◌, refl, ap, ◌∙◌, sym}
use mathlib.Core.Logic.{inl, inr}
use mathlib.Core.Bool.{Bool, true, false, not, ◌||◌, ◌&&◌}
use mathlib.Core.List.{List, [], ◌∷◌, ◌++◌, append_assoc, append-nil}
use Prim.Native.String.{String}
use native.Mathlib.Omega.{arith}
use text.Mathlib.Text.{◌==◌}
use text.Mathlib.TextEquality.{eq_iff}
use text.Mathlib.TextPositions.{eq_refl}
use cognitive_execution_engi.Prelude.Tests.{if◌then◌else◌, Bool-cases}
use cognitive_execution_engi.Prelude.Lists.{keep}

unfoldable pub contains : String → List String → Bool
contains x [] = false
contains x (y ∷ ys) = (y == x) || contains x ys

-- a key enters once
abbrev pub enter : List String → String → List String
enter seen x = if contains x seen then seen else seen ++ x ∷ []

unfoldable pub enter_all : List String → List String → List String
enter_all seen [] = seen
enter_all seen (x ∷ xs) = enter_all (enter seen x) xs

unfoldable pub from_keys : List String → List String
unfolding enter_all
from_keys xs = enter_all [] xs

-- No text occurs twice.
unfoldable pub all_distinct : List String → Bool
all_distinct [] = true
all_distinct (x ∷ xs) = not (contains x xs) && all_distinct xs

pub contains-append :
    (x : String) (xs ys : List String) → contains x (xs ++ ys) ≡ (contains x xs || contains x ys)
unfolding contains
contains-append x [] ys = refl
contains-append x (y ∷ xs) ys = ground (arith, contains-append x xs ys)

contains_of_eq :
    (x y : String) (seen : List String)
    → (y == x) ≡ true
    → contains y seen ≡ true
    → contains x seen ≡ true
contains_of_eq x y seen e h = ap (λ z. contains z seen) (sym ((eq_iff y x).0 e)) ∙ h

pub contains-enter :
    (x y : String) (seen : List String) → contains x (enter seen y) ≡ (contains x seen || (y == x))
unfolding contains
contains-enter x y seen = elim (Bool-cases (contains y seen)) [
  | inl old ↦ rw old (ground (arith, contains_of_eq x y seen))
  | inr new ↦ rw new (contains-append x seen (y ∷ []) ∙ ground arith)
]

pub contains-enter_all :
    (x : String) (seen xs : List String)
    → contains x (enter_all seen xs) ≡ (contains x seen || contains x xs)
unfolding enter_all contains
contains-enter_all x seen [] = ground arith
contains-enter_all x seen (y ∷ xs) =
    contains-enter_all x (enter seen y) xs ∙ ground (arith, contains-enter x y seen)

pub enter_all-append :
    (seen xs ys : List String) → enter_all seen (xs ++ ys) ≡ enter_all (enter_all seen xs) ys
unfolding enter_all
enter_all-append seen [] ys = refl
enter_all-append seen (x ∷ xs) ys = enter_all-append (enter seen x) xs ys

all_distinct-snoc :
    (x : String) (xs : List String)
    → all_distinct xs ≡ true
    → contains x xs ≡ false
    → all_distinct (xs ++ x ∷ []) ≡ true
unfolding all_distinct contains
all_distinct-snoc x [] d c = refl
all_distinct-snoc x (y ∷ xs) d c = ground (
  arith,
  all_distinct-snoc x xs,
  contains-append y xs (x ∷ []),
  eq_iff x y,
  eq_iff y x,
  eq_refl y,
)

all_distinct-enter :
    (seen : List String) (x : String)
    → all_distinct seen ≡ true
    → all_distinct (enter seen x) ≡ true
all_distinct-enter seen x d = elim (Bool-cases (contains x seen)) [
  | inl old ↦ rw old d
  | inr new ↦ rw new (all_distinct-snoc x seen d new)
]

-- The keys of a dictionary are distinct.
pub all_distinct-enter_all :
    (seen xs : List String) → all_distinct seen ≡ true → all_distinct (enter_all seen xs) ≡ true
unfolding enter_all
all_distinct-enter_all seen [] d = d
all_distinct-enter_all seen (x ∷ xs) d =
    all_distinct-enter_all (enter seen x) xs (all_distinct-enter seen x d)

not_seen :
    (seen : List String) (x : String) (xs : List String)
    → all_distinct (seen ++ x ∷ xs) ≡ true
    → contains x seen ≡ false
unfolding contains all_distinct
not_seen [] x xs d = refl
not_seen (y ∷ seen) x xs d =
    ground (
      arith,
      not_seen seen x xs,
      contains-append y seen (x ∷ xs),
      eq_iff x y,
      eq_iff y x,
      eq_refl x,
    )

-- Distinct texts that are new go to the end unchanged.
pub enter_all-all_distinct :
    (seen xs : List String) → all_distinct (seen ++ xs) ≡ true → enter_all seen xs ≡ seen ++ xs
unfolding enter_all
enter_all-all_distinct seen [] d = sym (append-nil seen)
enter_all-all_distinct seen (x ∷ xs) d =
    rw (not_seen seen x xs d) (
      enter_all-all_distinct (seen ++ x ∷ []) xs (rw append_assoc d)
      ∙ append_assoc seen (x ∷ []) xs)

-- A list of distinct texts is its own list of keys.
pub from_keys-all_distinct : (xs : List String) → all_distinct xs ≡ true → from_keys xs ≡ xs
unfolding from_keys
from_keys-all_distinct xs d = enter_all-all_distinct [] xs d

pub all_distinct-from_keys : (xs : List String) → all_distinct (from_keys xs) ≡ true
unfolding from_keys all_distinct
all_distinct-from_keys xs = all_distinct-enter_all [] xs refl

pub contains-from_keys : (x : String) (xs : List String) → contains x (from_keys xs) ≡ contains x xs
unfolding from_keys contains
contains-from_keys x xs = contains-enter_all x [] xs

-- Keys of a list put behind distinct texts: those that are new enter, in order.
pub from_keys-append :
    (xs ys : List String) → all_distinct xs ≡ true → from_keys (xs ++ ys) ≡ enter_all xs ys
unfolding from_keys
from_keys-append xs ys d =
    enter_all-append [] xs ys ∙ ap (λ seen. enter_all seen ys) (from_keys-all_distinct xs d)

-- What is known already adds nothing.
pub enter_all-keep_new :
    (known seen xs : List String)
    → ((x : String) → contains x known ≡ true → contains x seen ≡ true)
    → enter_all seen (keep (λ x. not (contains x known)) xs) ≡ enter_all seen xs
unfolding enter_all
enter_all-keep_new known seen [] grow = refl
enter_all-keep_new known seen (x ∷ xs) grow = elim (Bool-cases (contains x known)) [
  | inl old ↦ rw (old, grow x old) (enter_all-keep_new known seen xs grow)
  | inr new ↦ rw new (
      enter_all-keep_new known (enter seen x) xs
        (λ y h. ground (arith, contains-enter y x seen, grow y h)))
]
