-- ===== src/Tools/Rights.antt =====
-- What the tool policy lets through.
use cognitive_execution_engi.Prelude.{String, ◌≡◌, ◌↔◌, ◌⊎◌, refl, true, Option, none, some, arith}
use cognitive_execution_engi.Tools.{
  ToolSpec, ToolCallSpec, ToolRegistry, allow, deny, requires_approval, read, write,
  external_side_effect, get, evaluate_tool_call_policy, risk_requires_approval, policy_of,
}

module _ {F : Type 0} where
  allowed_tool :
      (name : String) (found : Option (ToolSpec F))
      → (policy_of name found).verdict ≡ allow
      → (tool : ToolSpec F) × (found ≡ some tool) × (tool.risk ≡ read)
  unfolding policy_of
  allowed_tool name none h = cc
  allowed_tool name (some tool) h = (tool, refl, ground arith)

  -- A call is allowed exactly if its tool is registered with the risk `read`; it is denied exactly
  -- if its tool is not registered.
  evaluate_tool_call_policy-verdict :
      (call : ToolCallSpec F) (tools : ToolRegistry F)
      → ((evaluate_tool_call_policy call tools).verdict ≡ allow
          ↔ (tool : ToolSpec F) × (get tools call.tool_name ≡ some tool) × (tool.risk ≡ read))
        × ((evaluate_tool_call_policy call tools).verdict ≡ deny ↔ get tools call.tool_name ≡ none)
  unfolding evaluate_tool_call_policy
  evaluate_tool_call_policy-verdict call tools = (
    (allowed_tool call.tool_name (get tools call.tool_name), λ h. ground arith),
    (ground arith, ground arith),
  )

  -- Of the three risks, exactly those that the tool itself marks as requiring approval get the
  -- verdict that asks for it.
  risk_requires_approval_agrees :
      (call : ToolCallSpec F) (tools : ToolRegistry F) (tool : ToolSpec F)
      → get tools call.tool_name ≡ some tool
      → (tool.risk ≡ read) ⊎ (tool.risk ≡ write) ⊎ (tool.risk ≡ external_side_effect)
      → (risk_requires_approval tool.risk ≡ true)
        ↔ ((evaluate_tool_call_policy call tools).verdict ≡ requires_approval)
  unfolding evaluate_tool_call_policy risk_requires_approval
  risk_requires_approval_agrees call tools tool g r = (λ h. ground arith, λ h. ground arith)
