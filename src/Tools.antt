-- ===== src/Tools.antt =====
-- src/cee_core/tools.py: tool contracts, the registry and the tool policy. The registry's dictionary
-- is the list of its values in insertion order, each under its own name. The proofs are in
-- `Registry` and `Rights`.
pub mod Registry
pub mod Rights
use cognitive_execution_engi.Prelude.{
  String, ◌==◌, Bool, true, false, List, [], ◌∷◌, ◌++◌, Option, none, some, ◌<>◌, is_some,
  find_first, if◌then◌else◌,
}
use cognitive_execution_engi.Value.{Value, Entries}
use cognitive_execution_engi.Outcome.{Outcome, ok, raise, value_error}

pub data ToolRisk : Type 0 where
  read write external_side_effect : ToolRisk
  other_risk : String → ToolRisk

pub record ToolSpec (F : Type 0) : Type 0 where
  pub name : String
  pub description : String
  pub risk : ToolRisk
  pub input_schema : Entries F
  pub reversible : Bool
  pub observable_result : Bool
  pub evidence_required : F

-- `ToolSpec.requires_approval`, of the risk
unfoldable pub risk_requires_approval : ToolRisk → Bool
risk_requires_approval write = true
risk_requires_approval external_side_effect = true
risk_requires_approval _ = false

pub record ToolCallSpec (F : Type 0) : Type 0 where
  pub tool_name : String
  pub arguments : Entries F
  pub call_id : String

pub data ToolVerdict : Type 0 where
  allow deny requires_approval : ToolVerdict

pub record ToolPolicyDecision : Type 0 where
  pub verdict : ToolVerdict
  pub reason : String
  pub tool_name : String

-- `ToolPolicyDecision.allowed` and `.blocked`, of the verdict
abbrev pub verdict_allowed : ToolVerdict → Bool
verdict_allowed allow = true
verdict_allowed _ = false

abbrev pub verdict_blocked : ToolVerdict → Bool
verdict_blocked deny = true
verdict_blocked requires_approval = true
verdict_blocked _ = false

unfoldable pub verdict_text : ToolVerdict → String
verdict_text allow = "allow"
verdict_text deny = "deny"
verdict_text requires_approval = "requires_approval"

pub record ToolCallEvent (F : Type 0) : Type 0 where
  pub call : ToolCallSpec F
  pub decision : ToolPolicyDecision
  pub actor : String

pub data ToolStatus : Type 0 where
  succeeded failed : ToolStatus

pub record ToolResultEvent (F : Type 0) : Type 0 where
  pub call_id : String
  pub tool_name : String
  pub status : ToolStatus
  pub result : Value F
  pub error_message : String
  pub actor : String

abbrev pub ToolRegistry : Type 0 → Type 0
ToolRegistry F = List (ToolSpec F)

-- the verdict on a registered tool
unfoldable pub risk_verdict : ToolRisk → ToolVerdict
risk_verdict read = allow
risk_verdict _ = requires_approval

unfoldable pub risk_reason : ToolRisk → String
risk_reason read = "read tool allowed by Stage 1D policy"
risk_reason write = "write tool requires approval"
risk_reason _ = "external side effect tool requires approval"

module _ {F : Type 0} where
  -- `ToolRegistry.get`
  unfoldable pub get : ToolRegistry F → String → Option (ToolSpec F)
  get tools name = find_first (λ t. t.name == name) tools

  -- `ToolRegistry.register`
  unfoldable pub register : ToolRegistry F → ToolSpec F → Outcome (ToolRegistry F)
  register tools tool =
      if is_some (get tools tool.name)
      then raise (value_error ("Tool already registered: " <> tool.name))
      else ok (tools ++ tool ∷ [])

  unfoldable pub policy_of : String → Option (ToolSpec F) → ToolPolicyDecision
  unfolding risk_verdict risk_reason
  policy_of name none = record {
    verdict = deny;
    reason = "unknown tool: " <> name;
    tool_name = name;
  }
  policy_of name (some tool) = record {
    verdict = risk_verdict tool.risk;
    reason = risk_reason tool.risk;
    tool_name = tool.name;
  }

  unfoldable pub evaluate_tool_call_policy : ToolCallSpec F → ToolRegistry F → ToolPolicyDecision
  unfolding policy_of
  evaluate_tool_call_policy call tools = policy_of call.tool_name (get tools call.tool_name)

  unfoldable pub build_tool_call_event : ToolCallSpec F → ToolRegistry F → String → ToolCallEvent F
  build_tool_call_event call tools actor = record {
    call = call;
    decision = evaluate_tool_call_policy call tools;
    actor = actor;
  }
