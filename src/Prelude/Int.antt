-- ===== src/Prelude/Int.antt =====
-- Python's `int`: integers, `int(text)`, `str(number)`, and the text after the last underscore.
-- `int` also reads decimal digits outside ASCII, which are not modelled.
use Prim.Native.Nat.{ℕ, zero, suc, ◌+◌, ◌*◌, ◌-◌, ◌/◌, ◌%◌, ◌<◌}
use Prim.Native.String.{String, [], ◌∷◌}
use Prim.Native.Char.{Char, code}
use mathlib.Core.Path.{◌≡◌, refl, ap, sym, ◌∙◌}
use mathlib.Core.Logic.{inl, inr}
use mathlib.Core.Bool.{Bool, true, ◌&&◌, ◌||◌}
use mathlib.Core.Option.{Option, none, some}
use native.Mathlib.Omega.{arith}
use text.Mathlib.TextLemmas.{cons-append, nil-append}
use cognitive_execution_engi.Prelude.Tests.{Bool-cases, eqb, leb, ltb, if◌then◌else◌}
use cognitive_execution_engi.Prelude.Text.{◌<>◌}

pub data ℤ : Type 0 where
  pos : ℕ → ℤ
  negsuc : ℕ → ℤ

abbrev pub neg : ℕ → ℤ
neg zero = pos 0
neg (suc n) = negsuc n

-- `z + 1`
abbrev pub succ : ℤ → ℤ
succ (pos n) = pos (n + 1)
succ (negsuc zero) = pos 0
succ (negsuc (suc n)) = negsuc n

digit : ℕ → Char
digit n =
    if eqb n 0
    then "0"
    else if eqb n 1
    then "1"
    else if eqb n 2
    then "2"
    else if eqb n 3
    then "3"
    else if eqb n 4
    then "4"
    else if eqb n 5
    then "5"
    else if eqb n 6
    then "6"
    else if eqb n 7
    then "7"
    else if eqb n 8
    then "8"
    else "9"

show_digits : ℕ → ℕ → String → String
show_digits zero n rest = rest
show_digits (suc fuel) n rest =
    let more = show_digits fuel (n / 10) (digit (n % 10) ∷ rest) in
    if ltb n 10 then digit n ∷ rest else more

-- `str(n)`; a number has fewer digits than its successor
unfoldable pub show : ℕ → String
unfolding show_digits digit
show n = show_digits (suc n) n []

unfoldable pub show_int : ℤ → String
unfolding show
show_int (pos n) = show n
show_int (negsuc n) = "-" <> show (n + 1)

-- the code of a character of white space, for which `c.isspace()` holds: what `strip` and `split`
-- remove
unfoldable pub space_code : ℕ → Bool
space_code n =
    (leb 9 n && leb n 13)
    || (leb 28 n && leb n 32)
    || eqb n 133
    || eqb n 160
    || eqb n 5760
    || (leb 8192 n && leb n 8202)
    || eqb n 8232
    || eqb n 8233
    || eqb n 8239
    || eqb n 8287
    || eqb n 12288

abbrev pub is_space : Char → Bool
is_space c = space_code (code c)

abbrev pub is_digit : Char → Bool
is_digit c = leb 48 (code c) && leb (code c) 57

unfoldable pub all_spaces : String → Bool
unfolding space_code
all_spaces [] = true
all_spaces (c ∷ s) = is_space c && all_spaces s

read_digits : ℕ → String → Option ℕ
unfolding all_spaces space_code
read_digits n [] = some n
read_digits n (c ∷ s) =
    let more = read_digits (n * 10 + (code c - 48)) s in
    if is_digit c then more else if is_space c && all_spaces s then some n else none

-- at least one digit, then only digits and trailing spaces
unsigned : String → Option ℕ
unfolding read_digits
unsigned [] = none
unsigned (c ∷ s) = if is_digit c then read_digits 0 (c ∷ s) else none

signed : String → Option ℤ
unfolding unsigned
signed [] = none
signed (c ∷ s) =
    if eqb (code c) b'-'
    then elim (unsigned s) [ none ↦ none | some n ↦ some (neg n) ]
    else if eqb (code c) b'+'
    then elim (unsigned s) [ none ↦ none | some n ↦ some (pos n) ]
    else elim (unsigned (c ∷ s)) [ none ↦ none | some n ↦ some (pos n) ]

-- `int(s)`, with `none` for its ValueError
unfoldable pub read_int : String → Option ℤ
unfolding signed space_code
read_int [] = none
read_int (c ∷ s) = let more = read_int s in if is_space c then more else signed (c ∷ s)

after_last : String → String → String
after_last best [] = best
after_last best (c ∷ s) = after_last (if eqb (code c) b'_' then s else best) s

-- `s.split('_')[-1]`
unfoldable pub last_segment : String → String
unfolding after_last
last_segment s = after_last s s

code-digit : (n : ℕ) → n < 10 → code (digit n) ≡ n + 48
unfolding digit
code-digit zero h = refl
code-digit (suc zero) h = refl
code-digit (suc (suc zero)) h = refl
code-digit (suc (suc (suc zero))) h = refl
code-digit (suc (suc (suc (suc zero)))) h = refl
code-digit (suc (suc (suc (suc (suc zero))))) h = refl
code-digit (suc (suc (suc (suc (suc (suc zero)))))) h = refl
code-digit (suc (suc (suc (suc (suc (suc (suc zero))))))) h = refl
code-digit (suc (suc (suc (suc (suc (suc (suc (suc zero)))))))) h = refl
code-digit (suc (suc (suc (suc (suc (suc (suc (suc (suc zero))))))))) h = refl
code-digit (suc (suc (suc (suc (suc (suc (suc (suc (suc (suc n)))))))))) h = absurd (omega arith)

read_digits-digit :
    (acc d : ℕ) (rest : String)
    → d < 10
    → read_digits acc (digit d ∷ rest) ≡ read_digits (acc * 10 + d) rest
unfolding read_digits
read_digits-digit acc d rest h =
    rw (code-digit d h) (ground (arith, ap (λ (k : ℕ). read_digits (acc * 10 + k) rest) (back d)))
  where
    back : (k : ℕ) → k + 48 - 48 ≡ k
    back k = omega arith

-- Reading back the digits of `n` continues with `n`, whatever text follows.
read_digits-show_digits :
    (fuel n : ℕ) (rest : String)
    → n < fuel
    → read_digits 0 (show_digits fuel n rest) ≡ read_digits n rest
unfolding show_digits
read_digits-show_digits zero n rest h = elim h [ ]
read_digits-show_digits (suc fuel) n rest h = ground (
  arith,
  read_digits-digit 0 n rest,
  read_digits-show_digits fuel (n / 10) (digit (n % 10) ∷ rest),
  read_digits-digit (n / 10) (n % 10) rest,
  whole n,
)
  where
    whole : (k : ℕ) → k / 10 * 10 + k % 10 ≡ k
    whole k = omega arith

digit-is_digit : (n : ℕ) → n < 10 → is_digit (digit n) ≡ true
digit-is_digit n h = rw (code-digit n h) (ground arith)

-- The text of a number begins with a digit.
show_digits_head :
    (fuel n : ℕ) (rest : String)
    → n < fuel
    → (c : Char) × (s : String) × (show_digits fuel n rest ≡ c ∷ s) × (is_digit c ≡ true)
unfolding show_digits
show_digits_head zero n rest h = elim h [ ]
show_digits_head (suc fuel) n rest h = elim (Bool-cases (ltb n 10)) [
  | inl small ↦ (digit n, rest, rw small, digit-is_digit n (ground arith))
  | inr big ↦ rw big (show_digits_head fuel (n / 10) (digit (n % 10) ∷ rest) (ground arith))
]

read_int-is_digit :
    (c : Char) (s : String) {n : ℕ}
    → is_digit c ≡ true
    → read_digits 0 (c ∷ s) ≡ some n
    → read_int (c ∷ s) ≡ some (pos n)
unfolding read_int space_code
read_int-is_digit c s h e = ground arith

read_digits-nil : (n : ℕ) → read_digits n [] ≡ some n
unfolding read_digits
read_digits-nil n = refl

show_lem : (n : ℕ) → show n ≡ show_digits (suc n) n []
unfolding show
show_lem n = refl

-- `int(str(n))` is `n`.
pub read_int-show : (n : ℕ) → read_int (show n) ≡ some (pos n)
read_int-show n =
    let (c, s, text, is) = show_digits_head (suc n) n [] (omega arith) in
    let whole = read_digits-show_digits (suc n) n [] (omega arith) ∙ read_digits-nil n in
    ap read_int (show_lem n ∙ text)
    ∙ read_int-is_digit c s is (ap (read_digits 0) (sym text) ∙ whole)

after_last-is_digit :
    (best : String) (c : Char) (s : String)
    → is_digit c ≡ true
    → after_last best (c ∷ s) ≡ after_last best s
unfolding after_last
after_last-is_digit best c s h = ground arith

after_last-show_digits :
    (fuel n : ℕ) (best rest : String)
    → after_last best (show_digits fuel n rest) ≡ after_last best rest
unfolding show_digits
after_last-show_digits zero n best rest = refl
after_last-show_digits (suc fuel) n best rest = elim (Bool-cases (ltb n 10)) [
  | inl small ↦ rw small (after_last-is_digit best (digit n) rest (digit-is_digit n (ground arith)))
  | inr big ↦ rw big (
      after_last-show_digits fuel (n / 10) best (digit (n % 10) ∷ rest)
      ∙ after_last-is_digit best (digit (n % 10)) rest (digit-is_digit (n % 10) (omega arith)))
]

last_segment-ws_digits : (t : String) → last_segment ("ws_" <> t) ≡ after_last t t
unfolding last_segment
last_segment-ws_digits t =
    rw (cons-append "w" "s_" t, cons-append "s" "_" t, cons-append "_" "" t, nil-append t)

-- What follows the underscore in `ws_n` is the text of `n`.
pub last_segment-ws : (n : ℕ) → last_segment ("ws_" <> show n) ≡ show n
unfolding after_last
last_segment-ws n =
    last_segment-ws_digits (show n)
    ∙ (rw (show_lem n) (after_last-show_digits (suc n) n (show_digits (suc n) n []) []))

pub show_int-pos : (n : ℕ) → show_int (pos n) ≡ show n
unfolding show_int
show_int-pos n = refl
