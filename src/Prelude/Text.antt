-- ===== src/Prelude/Text.antt =====
-- Python's `str`: concatenation, `startswith` and the slice behind a prefix.
use Prim.Native.String.{String, [], ◌∷◌}
use Prim.Native.String.{◌++◌ as append}
use Prim.Native.Char.{code}
use mathlib.Core.Path.{◌≡◌}
use mathlib.Core.Bool.{Bool, true, false, not, ◌||◌}
use mathlib.Core.Option.{Option, none, some}
use native.Mathlib.Omega.{arith}
use text.Mathlib.Text.{◌==◌}
use text.Mathlib.TextLemmas.{cons-append, nil-append}
use cognitive_execution_engi.Prelude.Tests.{eqb, eqb_refl, if◌then◌else◌, is_some}

infixr 65 ◌<>◌
abbrev pub ◌<>◌ : String → String → String
s <> t = append s t

-- `bool(s)`
abbrev pub truthy : String → Bool
truthy s = not (s == "")

-- `s[len(p):]` where `s.startswith(p)`, else nothing
unfoldable pub strip_prefix : String → String → Option String
strip_prefix [] s = some s
strip_prefix (c ∷ p) [] = none
strip_prefix (c ∷ p) (d ∷ s) =
    let rest = strip_prefix p s in if eqb (code c) (code d) then rest else none

-- `s.startswith(p)`
abbrev pub has_prefix : String → String → Bool
has_prefix p s = is_some (strip_prefix p s)

-- What was put behind a prefix is what the slice gives back.
pub strip_prefix-append : (p s : String) → strip_prefix p (p <> s) ≡ some s
unfolding strip_prefix
strip_prefix-append [] s = rw nil-append
strip_prefix-append (c ∷ p) s =
    rw cons-append (ground (arith, eqb_refl (code c), strip_prefix-append p s))

-- The texts differ at a place that both have.
unfoldable pub diverge : String → String → Bool
diverge (c ∷ p) (d ∷ q) = not (eqb (code c) (code d)) || diverge p q
diverge _ _ = false

-- A prefix is not found in a text that begins otherwise.
pub strip_prefix-diverge : (p q s : String) → diverge p q ≡ true → strip_prefix p (q <> s) ≡ none
unfolding strip_prefix diverge
strip_prefix-diverge [] q s h = cc
strip_prefix-diverge (c ∷ p) [] s h = cc
strip_prefix-diverge (c ∷ p) (d ∷ q) s h =
    rw cons-append (ground (arith, strip_prefix-diverge p q s))
