-- ===== src/Workflow/Forbidden.antt =====
-- src/cee_core/workflow.py: which conditions the safety check refuses, told by what occurs in their
-- trees.
use cognitive_execution_engi.Prelude.{
  String, ◌<>◌, ◌≡◌, refl, Bool, true, false, not, ◌||◌, contains, has_prefix, strip_prefix, arith,
}
use Prim.Native.Char.{Char}
use text.Mathlib.TextLemmas.{cons-append, nil-append}
use cognitive_execution_engi.Workflow.Condition.{
  Expr, Exprs, Links, CompareOp, name, compare, attribute, call, negation, conjunction, disjunction,
  other, more, link, check_dunder, safe_name, is_node_safe, all_safe, links_safe,
}

-- The names that a condition must not have in it, and every name with two underscores in a row.
pub data IsForbidden : String → Type 0 where
  import_name : IsForbidden "__import__"
  class_name : IsForbidden "__class__"
  exec_name : IsForbidden "exec"
  eval_name : IsForbidden "eval"
  compile_name : IsForbidden "compile"
  open_name : IsForbidden "open"
  getattr_name : IsForbidden "getattr"
  setattr_name : IsForbidden "setattr"
  delattr_name : IsForbidden "delattr"
  dunder_name : (before after : String) → IsForbidden (before <> "__" <> after)

-- The tree has a forbidden name or an attribute with two underscores in it, at any depth.
mutual
  pub data Unsafe {F : Type 0} : Expr F → Type 0 where
    named : {id : String} → IsForbidden id → Unsafe (name id)
    attributed :
        {e : Expr F} (before after : String) → Unsafe (attribute e (before <> "__" <> after))
    in_object : {e : Expr F} {attr : String} → Unsafe e → Unsafe (attribute e attr)
    in_left : {e : Expr F} {links : Links F} → Unsafe e → Unsafe (compare e links)
    in_links : {e : Expr F} {links : Links F} → UnsafeLink links → Unsafe (compare e links)
    in_function : {e : Expr F} {args keywords : Exprs F} → Unsafe e → Unsafe (call e args keywords)
    in_arguments :
        {e : Expr F} {args keywords : Exprs F} → UnsafeIn args → Unsafe (call e args keywords)
    in_keywords :
        {e : Expr F} {args keywords : Exprs F} → UnsafeIn keywords → Unsafe (call e args keywords)
    in_negation : {e : Expr F} → Unsafe e → Unsafe (negation e)
    in_conjunction : {es : Exprs F} → UnsafeIn es → Unsafe (conjunction es)
    in_disjunction : {es : Exprs F} → UnsafeIn es → Unsafe (disjunction es)
    in_other : {kind : String} {es : Exprs F} → UnsafeIn es → Unsafe (other kind es)

  pub data UnsafeIn {F : Type 0} : Exprs F → Type 0 where
    here : {e : Expr F} {es : Exprs F} → Unsafe e → UnsafeIn (more e es)
    there : {e : Expr F} {es : Exprs F} → UnsafeIn es → UnsafeIn (more e es)

  pub data UnsafeLink {F : Type 0} : Links F → Type 0 where
    at : {op : CompareOp} {e : Expr F} {links : Links F} → Unsafe e → UnsafeLink (link op e links)
    later :
        {op : CompareOp} {e : Expr F} {links : Links F}
        → UnsafeLink links
        → UnsafeLink (link op e links)

prefix_there : (s : String) → has_prefix "__" ("__" <> s) ≡ true
unfolding strip_prefix
prefix_there s = rw (cons-append "_" "_" s, cons-append "_" "" s) refl

check_dunder-begins : (s : String) → has_prefix "__" s ≡ true → check_dunder s ≡ true
unfolding check_dunder strip_prefix
check_dunder-begins String.[] h = h
check_dunder-begins (String.◌∷◌ c s) h = ground (arith, h)

check_dunder-behind :
    (c : Char) (s : String) → check_dunder s ≡ true → check_dunder (String.◌∷◌ c s) ≡ true
unfolding check_dunder
check_dunder-behind c s h = ground (arith, h)

either_bars : (a b : Bool) → b ≡ true → not (a || b) ≡ false
either_bars a b h = ground arith

check_dunder-there : (before after : String) → check_dunder (before <> "__" <> after) ≡ true
check_dunder-there String.[] after = rw nil-append (check_dunder-begins _ (prefix_there after))
check_dunder-there (String.◌∷◌ c s) after =
    rw cons-append (check_dunder-behind c _ (check_dunder-there s after))

safe_name-forbidden : (id : String) → IsForbidden id → safe_name id ≡ false
unfolding check_dunder contains
safe_name-forbidden _ import_name = refl
safe_name-forbidden _ class_name = refl
safe_name-forbidden _ exec_name = refl
safe_name-forbidden _ eval_name = refl
safe_name-forbidden _ compile_name = refl
safe_name-forbidden _ open_name = refl
safe_name-forbidden _ getattr_name = refl
safe_name-forbidden _ setattr_name = refl
safe_name-forbidden _ delattr_name = refl
safe_name-forbidden _ (dunder_name before after) = either_bars _ _ (check_dunder-there before after)

module _ {F : Type 0} where
  mutual
    unfolding is_node_safe all_safe links_safe

    pub is_node_safe-Unsafe : (e : Expr F) → Unsafe e → is_node_safe e ≡ false
    is_node_safe-Unsafe _ (named forbidden) = safe_name-forbidden _ forbidden
    is_node_safe-Unsafe _ (attributed before after) = rw (check_dunder-there before after) refl
    is_node_safe-Unsafe _ (in_object u) = ground (arith, is_node_safe-Unsafe _ u)
    is_node_safe-Unsafe _ (in_left u) = ground (arith, is_node_safe-Unsafe _ u)
    is_node_safe-Unsafe _ (in_links u) = ground (arith, links_safe-UnsafeLink _ u)
    is_node_safe-Unsafe _ (in_function u) = ground (arith, is_node_safe-Unsafe _ u)
    is_node_safe-Unsafe _ (in_arguments u) = ground (arith, all_safe-UnsafeIn _ u)
    is_node_safe-Unsafe _ (in_keywords u) = ground (arith, all_safe-UnsafeIn _ u)
    is_node_safe-Unsafe _ (in_negation u) = is_node_safe-Unsafe _ u
    is_node_safe-Unsafe _ (in_conjunction u) = all_safe-UnsafeIn _ u
    is_node_safe-Unsafe _ (in_disjunction u) = all_safe-UnsafeIn _ u
    is_node_safe-Unsafe _ (in_other u) = all_safe-UnsafeIn _ u

    all_safe-UnsafeIn : (es : Exprs F) → UnsafeIn es → all_safe es ≡ false
    all_safe-UnsafeIn _ (here u) = ground (arith, is_node_safe-Unsafe _ u)
    all_safe-UnsafeIn _ (there u) = ground (arith, all_safe-UnsafeIn _ u)

    links_safe-UnsafeLink : (links : Links F) → UnsafeLink links → links_safe links ≡ false
    links_safe-UnsafeLink _ (at u) = ground (arith, is_node_safe-Unsafe _ u)
    links_safe-UnsafeLink _ (later u) = ground (arith, links_safe-UnsafeLink _ u)
