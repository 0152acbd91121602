-- ===== src/Value.antt =====
-- Dynamically typed values (`Any`: raw values of deltas, tool arguments and results), over a type
-- `F` of floats, and what the program takes from its platform: float arithmetic and the texts
-- that depend on it (`str`, `json.dumps`, `json.loads`, `float(text)`).
pub mod Json
pub mod Plain
use cognitive_execution_engi.Prelude.{
  ℕ, String, Bool, true, false, Option, none, some, List, [], ◌∷◌, ◌==◌, if◌then◌else◌, ℤ,
}
use cognitive_execution_engi.Outcome.{Outcome, ok, raise, value_error, type_error}

mutual
  pub data Value (F : Type 0) : Type 0 where
    null : Value F
    bool : Bool → Value F
    int : ℤ → Value F
    float : F → Value F
    str : String → Value F
    list : Values F → Value F
    tuple : Values F → Value F
    dict : Entries F → Value F

  pub data Values (F : Type 0) : Type 0 where
    nil : Values F
    cons : Value F → Values F → Values F

  pub data Entries (F : Type 0) : Type 0 where
    end : Entries F
    entry : String → Value F → Entries F → Entries F

pub record Platform (F : Type 0) : Type 0 where
  pub decimal : ℕ → ℕ → F  -- the float nearest to m / 10 ^ d
  pub of_int : ℤ → F
  pub lt : F → F → Bool
  pub le : F → F → Bool
  pub add : F → F → F
  pub sub : F → F → F
  pub mul : F → F → F
  pub div : F → F → F
  pub round4 : F → F  -- round(x, 4)
  pub is_zero : F → Bool  -- x == 0.0
  pub floor : F → ℤ  -- int(x)
  pub parse_float : String → Option F  -- float(text)
  pub text : Value F → String  -- str(v)
  pub two_places : F → String  -- f"{x:.2f}"
  pub dumps : Value F → String  -- json.dumps(v, default=str)
  pub loads : String → Option (Value F)  -- json.loads

module _ {F : Type 0} where
  -- d.get(k)
  unfoldable pub get : String → Entries F → Option (Value F)
  get k end = none
  get k (entry j v d) = let rest = get k d in if j == k then some v else rest

  unfoldable pub items : Values F → List (Value F)
  items nil = []
  items (cons v vs) = v ∷ items vs

  unfoldable pub of_list : List (Value F) → Values F
  of_list [] = nil
  of_list (v ∷ vs) = cons v (of_list vs)

  -- values + [v]
  unfoldable pub append : Values F → Value F → Values F
  append nil w = cons w nil
  append (cons v vs) w = cons v (append vs w)

  -- the items, if isinstance(v, (list, tuple))
  abbrev pub sequence : Value F → Option (Values F)
  sequence (list vs) = some vs
  sequence (tuple vs) = some vs
  sequence _ = none

  -- the entries, if isinstance(v, dict)
  abbrev pub mapping : Value F → Option (Entries F)
  mapping (dict d) = some d
  mapping _ = none

module _ {F : Type 0} ⦃p : Platform F⦄ where
  -- max(a, b) and min(a, b) keep the first of two equals
  abbrev pub fmax : F → F → F
  fmax a b = if p.lt a b then b else a

  abbrev pub fmin : F → F → F
  fmin a b = if p.lt b a then b else a

  -- float(v)
  unfoldable pub to_float : Value F → Outcome F
  to_float (bool false) = ok (p.decimal 0 0)
  to_float (bool true) = ok (p.decimal 1 0)
  to_float (int z) = ok (p.of_int z)
  to_float (float x) = ok x
  to_float (str s) = elim (p.parse_float s) [
    | none ↦ raise (value_error "could not convert string to float")
    | some x ↦ ok x
  ]
  to_float _ = raise (type_error "float() argument must be a string or a real number")
