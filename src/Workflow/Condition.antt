-- ===== src/Workflow/Condition.antt =====
-- src/cee_core/workflow.py: the conditions of steps. The trees of Python's `ast` are a data type with the
-- nodes that the code tells apart, and `other` for every other kind, with its children; `ast.parse` and
-- the comparison of values are of Python, and parameters.
use cognitive_execution_engi.Prelude.{
  String, ◌==◌, ◌<>◌, Bool, true, false, not, ◌&&◌, ◌||◌, List, [], ◌∷◌, Option, none, some,
  contains, has_prefix, or_else, if◌then◌else◌,
}
use cognitive_execution_engi.Value.{Value, Entries, Platform, get}
use cognitive_execution_engi.Outcome.{Outcome, ok, raise, ◌>>=◌, value_error, type_error}
use cognitive_execution_engi.Serial.{falsy}

pub data CompareOp : Type 0 where
  equal not_equal greater less greater_equal less_equal within not_within : CompareOp
  other_op : String → CompareOp

mutual
  pub data Expr (F : Type 0) : Type 0 where
    constant : Value F → Expr F
    name : String → Expr F
    compare : Expr F → Links F → Expr F
    attribute : Expr F → String → Expr F
    call : Expr F → Exprs F → Exprs F → Expr F  -- function, arguments, values of keywords
    negation : Expr F → Expr F
    conjunction : Exprs F → Expr F
    disjunction : Exprs F → Expr F
    other : String → Exprs F → Expr F

  pub data Exprs (F : Type 0) : Type 0 where
    none_left : Exprs F
    more : Expr F → Exprs F → Exprs F

  pub data Links (F : Type 0) : Type 0 where
    no_link : Links F
    link : CompareOp → Expr F → Links F → Links F

pub record Python (F : Type 0) : Type 0 where
  pub parse : String → Option (Expr F)  -- ast.parse(condition, mode="eval").body, or a SyntaxError
  pub compares : CompareOp → Value F → Value F → Outcome Bool  -- `left op right`

abbrev pub forbidden_names : List String
forbidden_names =
    "__import__" ∷ "__class__" ∷ "exec" ∷ "eval" ∷ "compile" ∷ "open" ∷ "getattr" ∷ "setattr"
    ∷ "delattr" ∷ []

-- `"__" in name`
unfoldable pub check_dunder : String → Bool
check_dunder String.[] = false
check_dunder (String.◌∷◌ c s) = has_prefix "__" (String.◌∷◌ c s) || check_dunder s

abbrev pub safe_name : String → Bool
safe_name id = not (contains id forbidden_names || check_dunder id)

module _ {F : Type 0} where
  -- the walk over all nodes; the function of a call is one of them, so that its name is tested too
  unfoldable mutual
    unfolding check_dunder

    pub is_node_safe : Expr F → Bool
    is_node_safe (constant v) = true
    is_node_safe (name id) = safe_name id
    is_node_safe (compare left links) = is_node_safe left && links_safe links
    is_node_safe (attribute e attr) = not (check_dunder attr) && is_node_safe e
    is_node_safe (call function args keywords) =
        is_node_safe function && (all_safe args && all_safe keywords)
    is_node_safe (negation e) = is_node_safe e
    is_node_safe (conjunction es) = all_safe es
    is_node_safe (disjunction es) = all_safe es
    is_node_safe (other kind es) = all_safe es

    pub all_safe : Exprs F → Bool
    all_safe none_left = true
    all_safe (more e es) = is_node_safe e && all_safe es

    pub links_safe : Links F → Bool
    links_safe no_link = true
    links_safe (link op e links) = is_node_safe e && links_safe links

  -- the value of a name
  unfoldable pub value_of_name : String → Entries F → Outcome (Value F)
  unfolding get
  value_of_name id variables =
      if id == "True"
      then ok (Value.bool true)
      else if id == "False"
      then ok (Value.bool false)
      else if id == "None"
      then ok Value.null
      else if id == "variables"
      then ok (Value.dict variables)
      else elim (get id variables) [
        | none ↦ raise (value_error ("Unknown name: " <> id))
        | some v ↦ ok v
      ]

  -- `obj.get(key, default)`, of a dictionary; its keys are texts
  get_or : Entries F → Value F → Value F → Outcome (Value F)
  unfolding get
  get_or d (Value.str k) default = elim (get k d) [ none ↦ ok default | some v ↦ ok v ]
  get_or d (Value.list _) default = raise (type_error "unhashable type: 'list'")
  get_or d (Value.dict _) default = raise (type_error "unhashable type: 'dict'")
  get_or d _ default = ok default

  -- `left op right`, for the operators that the loop knows
  compare_by : Python F → CompareOp → Value F → Value F → Outcome Bool
  compare_by python (other_op kind) left right =
      raise (value_error ("Unsupported operator: " <> kind))
  compare_by python op left right = python.compares op left right

  -- a method call, with the outcomes of the first and the second argument, where there is one
  call_method :
      Value F → String → Option (Outcome (Value F)) → Option (Outcome (Value F)) → Outcome (Value F)
  unfolding get_or
  call_method (Value.dict d) method (some first) second =
      let found = do key ← first; default ← or_else second (ok Value.null); get_or d key default
      in if method == "get" then found else raise (value_error ("Unsupported method: " <> method))
  call_method obj method first second = raise (value_error ("Unsupported method: " <> method))

module _ {F : Type 0} ⦃p : Platform F⦄ (python : Python F) (variables : Entries F) where
  unfoldable mutual
    unfolding value_of_name compare_by call_method falsy

    pub eval_node : Expr F → Outcome (Value F)
    eval_node (constant v) = ok v
    eval_node (name id) = value_of_name id variables
    eval_node (compare left links) = do v ← eval_node left; eval_links v links
    eval_node (attribute e attr) = raise (value_error "Unsupported expression: Attribute")
    eval_node (call (attribute e attr) args keywords) = do
      obj ← eval_node e
      call_method obj attr (first_argument args) (second_argument args)
    eval_node (call _ args keywords) = raise (value_error "Unsupported call expression")
    eval_node (negation e) = do v ← eval_node e; ok (Value.bool (falsy v))
    eval_node (conjunction es) = eval_all es
    eval_node (disjunction es) = eval_any es
    eval_node (other kind es) = raise (value_error ("Unsupported expression: " <> kind))

    pub eval_links : Value F → Links F → Outcome (Value F)
    eval_links left no_link = ok (Value.bool true)
    eval_links left (link op e links) = do
      right ← eval_node e
      holds ← compare_by python op left right
      let rest = eval_links right links
      if holds then rest else ok (Value.bool false)

    pub first_argument : Exprs F → Option (Outcome (Value F))
    first_argument none_left = none
    first_argument (more e es) = some (eval_node e)

    pub second_argument : Exprs F → Option (Outcome (Value F))
    second_argument none_left = none
    second_argument (more e es) = first_argument es

    pub eval_all : Exprs F → Outcome (Value F)
    eval_all none_left = ok (Value.bool true)
    eval_all (more e es) = do
      v ← eval_node e
      let rest = eval_all es
      if falsy v then ok (Value.bool false) else rest

    pub eval_any : Exprs F → Outcome (Value F)
    eval_any none_left = ok (Value.bool false)
    eval_any (more e es) = do
      v ← eval_node e
      let rest = eval_any es
      if falsy v then rest else ok (Value.bool true)

module _ {F : Type 0} ⦃p : Platform F⦄ where
  -- `bool(result)`, and False where the evaluation raises
  holds_or_false : Outcome (Value F) → Bool
  unfolding falsy
  holds_or_false (ok v) = not (falsy v)
  holds_or_false (raise e) = false

  -- `_evaluate_condition`
  unfoldable pub evaluate_condition : Python F → String → Entries F → Bool
  unfolding is_node_safe eval_node holds_or_false
  evaluate_condition python condition variables = elim (python.parse condition) [
    | none ↦ false
    | some tree ↦
        if is_node_safe tree then holds_or_false (eval_node python variables tree) else false
  ]
