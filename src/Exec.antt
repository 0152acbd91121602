-- ===== src/Exec.antt =====
-- Methods that change state and may raise. What was written before a raise stays written, so the
-- state comes back beside the exception too.
use cognitive_execution_engi.Prelude.{◌≡◌, refl}
use cognitive_execution_engi.Outcome.{Exception, Outcome, ok, raise}

abbrev pub Exec : Type 0 → Type 0 → Type 0
Exec S A = S → Outcome A × S

abbrev pub return : {S A : Type 0} → A → Exec S A
return a s = (ok a, s)

abbrev pub throw : {S A : Type 0} → Exception → Exec S A
throw e s = (raise e, s)

-- a pure step that may raise
abbrev pub lift : {S A : Type 0} → Outcome A → Exec S A
lift r s = (r, s)

abbrev pub continue : {S A B : Type 0} → Outcome A → (A → Exec S B) → Exec S B
continue (ok a) f s = f a s
continue (raise e) f s = (raise e, s)

infixl 10 ◌>>=◌ ◌>>◌
abbrev pub ◌>>=◌ : {S A B : Type 0} → (first : Exec S A) → (next : A → Exec S B) → Exec S B
◌>>=◌ first next before = let (result, after) = first before in continue result next after

abbrev pub ◌>>◌ : {S A B : Type 0} → (first : Exec S A) → (second : Exec S B) → Exec S B
first >> second = first >>= λ ignored. second

-- If the action returns, its result and its state have the property.
abbrev pub WhenOk : {S A : Type 0} → (A → S → Type 0) → Outcome A × S → Type 0
WhenOk P (ok a, s) = P a s
WhenOk P (raise e, s) = Unit {0}

pub WhenOk-continue :
    {S A B : Type 0} (Q : B → S → Type 0) (r : Outcome A) (f : A → Exec S B) (s : S)
    → ((a : A) → r ≡ ok a → WhenOk Q (f a s))
    → WhenOk Q (continue r f s)
WhenOk-continue Q (ok a) f s h = h a refl
WhenOk-continue Q (raise e) f s h = tt

-- A bind has the property if its second action has it, from whatever the first one returns.
pub WhenOk-bind :
    {S A B : Type 0} (P : A → S → Type 0) (Q : B → S → Type 0) (m : Exec S A) (f : A → Exec S B)
    (s : S)
    → WhenOk P (m s)
    → ((a : A) (s' : S) → P a s' → WhenOk Q (f a s'))
    → WhenOk Q ((m >>= f) s)
WhenOk-bind {S} {A} {B} P Q m f s h k = go (m s).0 (m s).1 h
  where
    go : (r : Outcome A) (s' : S) → WhenOk P (r, s') → WhenOk Q (continue r f s')
    go (ok a) s' p = k a s' p
    go (raise e) s' p = tt

pub WhenOk-any :
    {S A : Type 0} (r : Outcome A) (s : S) → WhenOk (λ (a : A) (t : S). Unit {0}) (r, s)
WhenOk-any (ok a) s = tt
WhenOk-any (raise e) s = tt
