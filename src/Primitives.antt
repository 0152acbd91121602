-- ===== src/Primitives.antt =====
-- src/cee_core/primitives.py: the cognitive primitives, their validation and their defaults.
use cognitive_execution_engi.Prelude.{
  String, ◌==◌, ◌<>◌, ◌≡◌, refl, Bool, true, false, not, List, [], ◌∷◌, keep, contains, ltb, eqb,
  if◌then◌else◌, arith,
}
use Prim.Native.Char.{code}
use cognitive_execution_engi.Outcome.{Outcome, ok, raise, value_error}

abbrev pub all_cognitive_primitives : List String
all_cognitive_primitives =
    "observe" ∷ "interpret" ∷ "hypothesize" ∷ "plan" ∷ "act" ∷ "verify" ∷ "reflect" ∷ "escalate"
    ∷ []

-- the order of texts, by code points
text_lt : String → String → Bool
text_lt s String.[] = false
text_lt String.[] (String.◌∷◌ d t) = true
text_lt (String.◌∷◌ c s) (String.◌∷◌ d t) =
    let rest = text_lt s t in
    if ltb (code c) (code d) then true else if eqb (code c) (code d) then rest else false

-- a text put in its place, unless it is there
insert : String → List String → List String
unfolding text_lt
insert s [] = s ∷ []
insert s (t ∷ ts) =
    let rest = insert s ts in
    if s == t then t ∷ ts else if text_lt s t then s ∷ t ∷ ts else t ∷ rest

-- `sorted(set(texts))`
sorted_set : List String → List String
unfolding insert
sorted_set [] = []
sorted_set (s ∷ ts) = insert s (sorted_set ts)

-- `", ".join(texts)`
unfoldable pub joined : List String → String
joined [] = ""
joined (s ∷ []) = s
joined (s ∷ t ∷ ts) = s <> ", " <> joined (t ∷ ts)

abbrev pub is_primitive : String → Bool
is_primitive value = contains value all_cognitive_primitives

refuse_invalid : List String → List String → Outcome (List String)
unfolding sorted_set joined
refuse_invalid [] values = ok values
refuse_invalid (v ∷ invalid) values =
    raise (value_error ("Invalid cognitive primitives: " <> joined (sorted_set (v ∷ invalid))))

unfoldable pub validate_primitives : List String → Outcome (List String)
unfolding refuse_invalid
validate_primitives values = refuse_invalid (keep (λ value. not (is_primitive value)) values) values

unfoldable pub default_primitives_for_task_kind : String → Outcome (List String)
default_primitives_for_task_kind kind =
    if kind == "analysis"
    then ok ("observe" ∷ "interpret" ∷ "plan" ∷ "verify" ∷ [])
    else if kind == "state_update"
    then ok ("observe" ∷ "interpret" ∷ "plan" ∷ "act" ∷ "verify" ∷ "escalate" ∷ [])
    else raise (value_error ("Unsupported task kind for primitive selection: " <> kind))

-- every value is a primitive
unfoldable pub known_primitives : List String → Bool
known_primitives [] = true
known_primitives (v ∷ vs) = if is_primitive v then known_primitives vs else false

none_invalid :
    (vs : List String)
    → known_primitives vs ≡ true
    → keep (λ value. not (is_primitive value)) vs ≡ []
unfolding known_primitives
none_invalid [] h = refl
none_invalid (v ∷ vs) h = ground (arith, none_invalid vs)

pub validate_primitives-known :
    (vs : List String) → known_primitives vs ≡ true → validate_primitives vs ≡ ok vs
unfolding validate_primitives refuse_invalid
validate_primitives-known vs h = rw (none_invalid vs h) refl
