-- ===== src/Serial.antt =====
-- The payloads of `to_dict` and `from_dict`: how a field is written, and how it is read back. The
-- children have one pair of functions each, for the class that they are named after. A constructor of
-- the source stores any value that it finds; a value that the field's type does not have is outside
-- the model, and a reader gives a type error there.
pub mod Entity
pub mod Relation
pub mod Hypothesis
pub mod State
pub mod Delta
pub mod Revised
pub mod Committed
pub mod CommitmentVerdict
pub mod RevisionVerdict
pub mod Step
pub mod Deliberated
pub mod Plan
pub mod Spec
use cognitive_execution_engi.Prelude.{
  every, String, ◌≡◌, refl, Bool, true, false, ◌&&◌, List, [], ◌∷◌, map, Option, none, some, arith,
  not, ◌==◌, eqb, pos, negsuc,
}
use cognitive_execution_engi.Value
use cognitive_execution_engi.Value.{
  Value, Values, Entries, Platform, nil, cons, end, entry, get, of_list,
}
use cognitive_execution_engi.Outcome.{Outcome, ok, raise, ◌>>=◌, key_error, type_error}

every-true : {A : Type 0} (xs : List A) → every (λ x. true) xs ≡ true
every-true [] = refl
every-true (x ∷ xs) = every-true xs

module _ {F : Type 0} where
  -- a dictionary, key by key
  unfoldable pub dict_of : List (String × Value F) → Entries F
  dict_of [] = end
  dict_of ((k, v) ∷ d) = entry k v (dict_of d)

  -- `payload[k]`
  unfoldable pub required : String → Entries F → Outcome (Value F)
  unfolding get
  required k d = elim (get k d) [ none ↦ raise (key_error k) | some v ↦ ok v ]

  -- `payload.get(k, default)`
  unfoldable pub optional : String → Value F → Entries F → Value F
  unfolding get
  optional k default d = elim (get k d) [ none ↦ default | some v ↦ v ]

  unfoldable pub as_text : Value F → Outcome String
  as_text (Value.str s) = ok s
  as_text _ = raise (type_error "a text is expected")

  unfoldable pub as_bool : Value F → Outcome Bool
  as_bool (Value.bool b) = ok b
  as_bool _ = raise (type_error "a truth value is expected")

  unfoldable pub as_float : Value F → Outcome F
  as_float (Value.float x) = ok x
  as_float _ = raise (type_error "a float is expected")

  unfoldable pub as_dict : Value F → Outcome (Entries F)
  as_dict (Value.dict d) = ok d
  as_dict _ = raise (type_error "a dictionary is expected")

  unfoldable pub as_text_or_null : Value F → Outcome (Option String)
  as_text_or_null Value.null = ok none
  as_text_or_null (Value.str s) = ok (some s)
  as_text_or_null _ = raise (type_error "a text or None is expected")

  -- `[write(x) for x in xs]`
  unfoldable pub write_each : {A : Type 0} → (A → Value F) → List A → Value F
  unfolding of_list
  write_each write xs = Value.list (of_list (map write xs))

  module _ {A : Type 0} (read : Value F → Outcome A) where
    unfoldable pub read_items : Values F → Outcome (List A)
    read_items nil = ok []
    read_items (cons v vs) = do x ← read v; xs ← read_items vs; ok (x ∷ xs)

    -- `tuple(read(v) for v in values)`
    unfoldable pub read_each : Value F → Outcome (List A)
    unfolding read_items
    read_each (Value.list vs) = read_items vs
    read_each (Value.tuple vs) = read_items vs
    read_each _ = raise (type_error "a sequence is expected")

  module _ {A : Type 0} (write : A → Value F) (read : Value F → Outcome A) where
    read_items-of_list :
        (p : A → Bool) (xs : List A)
        → ((x : A) → p x ≡ true → read (write x) ≡ ok x)
        → every p xs ≡ true
        → read_items read (of_list (map write xs)) ≡ ok xs
    unfolding read_items of_list
    read_items-of_list p [] h k = refl
    read_items-of_list p (x ∷ xs) h k =
        rw (h x (ground arith), read_items-of_list p xs h (ground arith)) refl

    -- What is written element by element is read back, if each of its elements is.
    pub read_each-write_each :
        (p : A → Bool) (xs : List A)
        → ((x : A) → p x ≡ true → read (write x) ≡ ok x)
        → every p xs ≡ true
        → read_each read (write_each write xs) ≡ ok xs
    unfolding read_each write_each
    read_each-write_each p xs h k = read_items-of_list p xs h k

  abbrev write_text : String → Value F
  write_text s = Value.str s

  -- `list(texts)` and `tuple(payload[k])`
  unfoldable pub texts : List String → Value F
  unfolding write_each
  texts xs = write_each write_text xs

  unfoldable pub as_texts : Value F → Outcome (List String)
  unfolding read_each as_text
  as_texts v = read_each as_text v

  -- What every element is read back from, the whole is read back from.
  pub read_each_all :
      {A : Type 0} (write : A → Value F) (read : Value F → Outcome A) (xs : List A)
      → ((x : A) → read (write x) ≡ ok x)
      → read_each read (write_each write xs) ≡ ok xs
  read_each_all write read xs h =
      read_each-write_each write read (λ x. true) xs (λ x k. h x) (every-true xs)

module _ {F : Type 0} ⦃p : Platform F⦄ where
  -- `str(v)`
  unfoldable pub str_of : Value F → String
  str_of (Value.str s) = s
  str_of v = p.text v

pub as_texts-texts : (F : Type 0) (xs : List String) → as_texts (texts {F = F} xs) ≡ ok xs
unfolding as_texts texts as_text
as_texts-texts F xs = read_each_all (write_text {F = F}) as_text xs (λ s. refl)

module _ {F : Type 0} ⦃p : Platform F⦄ where
  -- `not v`
  unfoldable pub falsy : Value F → Bool
  falsy Value.null = true
  falsy (Value.bool b) = not b
  falsy (Value.int (pos n)) = eqb n 0
  falsy (Value.int (negsuc n)) = false
  falsy (Value.float x) = p.is_zero x
  falsy (Value.str s) = s == ""
  falsy (Value.list nil) = true
  falsy (Value.list _) = false
  falsy (Value.tuple nil) = true
  falsy (Value.tuple _) = false
  falsy (Value.dict end) = true
  falsy (Value.dict _) = false
