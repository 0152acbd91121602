-- ===== src/Tools/Registry.antt =====
-- The registry holds each name once, and what was registered is found.
use cognitive_execution_engi.Prelude.{
  String, ◌==◌, eq_iff, ◌≡◌, ◌↔◌, refl, ap, Bool, true, false, not, ◌&&◌, [], ◌∷◌, ◌++◌, none, some,
  ◌<>◌, is_some, if◌then◌else◌, arith,
}
use cognitive_execution_engi.Outcome.{ok, raise, value_error}
use cognitive_execution_engi.Tools.{ToolSpec, ToolRegistry, get, register}

module _ {F : Type 0} where
  -- no name twice
  unfoldable pub one_each : ToolRegistry F → Bool
  unfolding get
  one_each [] = true
  one_each (t ∷ tools) = not (is_some (get tools t.name)) && one_each tools

  get-append :
      (tools : ToolRegistry F) (tool : ToolSpec F) (name : String)
      → get (tools ++ tool ∷ []) name ≡ (
          if is_some (get tools name)
          then get tools name
          else if tool.name == name
          then some tool
          else none)
  unfolding get
  get-append [] tool name = ground arith
  get-append (t ∷ tools) tool name = ground (arith, get-append tools tool name)

  one_each-append :
      (tools : ToolRegistry F) (tool : ToolSpec F)
      → one_each tools ≡ true
      → is_some (get tools tool.name) ≡ false
      → one_each (tools ++ tool ∷ []) ≡ true
  unfolding one_each
  one_each-append [] tool h n = refl
  one_each-append (t ∷ tools) tool h n = ground (
    arith,
    one_each-append tools tool,
    get-append tools tool t.name,
    eq_iff t.name tool.name,
    eq_iff tool.name t.name,
  )

  registered_once :
      (tools : ToolRegistry F) (tool : ToolSpec F) (name : String) {next : ToolRegistry F}
      → register tools tool ≡ ok next
      → (tool.name == name) ≡ true
      → is_some (get tools name) ≡ false
  unfolding register
  registered_once tools tool name r e =
      ground (arith, ap (λ n. is_some (get tools n)) ((eq_iff tool.name name).0 e))

  -- Registering a tool fails exactly if its name is taken. Where it succeeds, the names stay
  -- distinct, the new tool is found under its name, and every other name finds what it found before.
  register_lem :
      (tools : ToolRegistry F) (tool : ToolSpec F)
      → one_each tools ≡ true
      → ((register tools tool ≡ raise (value_error ("Tool already registered: " <> tool.name)))
          ↔ (is_some (get tools tool.name) ≡ true))
        × ((next : ToolRegistry F)
            → register tools tool ≡ ok next
            → (one_each next ≡ true)
              × ((name : String)
                  → get next name ≡ (if tool.name == name then some tool else get tools name)))
  unfolding register
  register_lem tools tool h = (
    (ground arith, ground arith),
    λ next r. (
      ground (arith, one_each-append tools tool h),
      λ name. ground (arith, get-append tools tool name, registered_once tools tool name r),
    ),
  )
