-- ===== src/Outcome.antt =====
-- Python exceptions: a function that may raise returns an `Outcome`.
use cognitive_execution_engi.Prelude.{String, ◌≡◌, refl}

pub data Exception : Type 0 where
  value_error type_error key_error attribute_error handler_error : String → Exception

pub data Outcome {ℓ} (A : Type ℓ) : Type ℓ where
  ok : A → Outcome A
  raise : Exception → Outcome A

-- the next step runs on what the step before returned
infixl 10 ◌>>=◌
abbrev pub ◌>>=◌ {ℓ} : {A B : Type ℓ} → (step : Outcome A) → (next : A → Outcome B) → Outcome B
raise exception >>= next = raise exception
ok result >>= next = next result

-- The function returns, and its result has the property.
abbrev pub Returns {ℓ} : {A : Type ℓ} → (A → Type 0) → Outcome A → Type 0
Returns P (ok a) = P a
Returns P (raise e) = ⊥

-- A bind returns if its first step does and, from there, its second.
pub Returns-bind {ℓ} :
    {A B : Type ℓ} (P : A → Type 0) (Q : B → Type 0) (m : Outcome A) (f : A → Outcome B)
    → Returns P m
    → ((a : A) → P a → Returns Q (f a))
    → Returns Q (m >>= f)
Returns-bind P Q (ok a) f h k = k a h
Returns-bind P Q (raise e) f h k = absurd h

pub Returns-map {ℓ} :
    {A : Type ℓ} (P Q : A → Type 0) (m : Outcome A)
    → Returns P m
    → ((a : A) → P a → Q a)
    → Returns Q m
Returns-map P Q (ok a) h k = k a h
Returns-map P Q (raise e) h k = absurd h

-- A call that does not raise returns, with what holds of each of its results.
pub Returns-of_not_raise {ℓ} :
    {A : Type ℓ} (P : A → Type 0) (m : Outcome A)
    → ((e : Exception) → ¬ (m ≡ raise e))
    → ((a : A) → m ≡ ok a → P a)
    → Returns P m
Returns-of_not_raise P (ok a) total all = all a refl
Returns-of_not_raise P (raise e) total all = absurd (total e refl)
