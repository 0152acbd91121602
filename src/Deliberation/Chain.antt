-- ===== src/Deliberation/Chain.antt =====
-- The reasoning chain ends, soon, in a terminal action.
use cognitive_execution_engi.Prelude.{
  ℕ, suc, String, ◌≡◌, true, ◌&&◌, Option, length, arith, if◌then◌else◌,
}
use cognitive_execution_engi.Task.{TaskSpec, is_risky, is_analysis, asks_for_docs}
use cognitive_execution_engi.Tools.{ToolRegistry}
use cognitive_execution_engi.Deliberation.{
  propose_plan, request_read_tool, propose_redirect, supports_read_docs, deliberate_next_action,
  deliberate_chain_step, deliberate_chain, chain_is_terminal, final_action,
}

module _ {F : Type 0} (task : TaskSpec) (tools : Option (ToolRegistry F)) where
  -- The first choice: reading the documentation where the task asks for it and the tool is there;
  -- else a redirect for a risky analysis; else the plan.
  pub deliberate_next_action-choice :
      (id : String)
      → (deliberate_next_action task tools id).chosen_action ≡ (
          if asks_for_docs task && supports_read_docs tools
          then request_read_tool
          else if is_analysis task.kind && is_risky task.risk_level
          then propose_redirect
          else propose_plan)
  unfolding deliberate_next_action
  deliberate_next_action-choice id = ground arith

  module _ (ids : ℕ → String) where
    -- A chain that is given at least two rounds has at most two steps, the last of them terminal; it
    -- has two steps exactly if the documentation is asked for and available, and then ends in the
    -- proposal of a plan.
    pub deliberate_chain_ends :
        (n : ℕ)
        → let steps = deliberate_chain task tools ids (suc (suc n)) in
          (chain_is_terminal steps ≡ true)
          × (length steps ≡ (if asks_for_docs task && supports_read_docs tools then 2 else 1))
          × (asks_for_docs task && supports_read_docs tools ≡ true
              → final_action steps ≡ propose_plan)
    unfolding deliberate_chain deliberate_chain_step chain_is_terminal final_action
    deliberate_chain_ends n = (
      ground (arith, deliberate_next_action-choice (ids 0), deliberate_next_action-choice (ids 1)),
      ground (arith, deliberate_next_action-choice (ids 0), deliberate_next_action-choice (ids 1)),
      ground (arith, deliberate_next_action-choice (ids 0), deliberate_next_action-choice (ids 1)),
    )
