-- ===== src/Tools/Contracts/Granted.antt =====
-- What the tools declare fits what the contracts of the workers grant.
use ai_native_sweng.Prelude.{String, true, ◌≡◌, refl, map, contains, arith}
use ai_native_sweng.Json.Value.{ℤ, Float}
use ai_native_sweng.Workers.Contract.Roles.{
  implementer_contract, fix_worker_contract, reviewer_contract,
}
use ai_native_sweng.Evaluation.Runner.Executor.{canonical_tools}
use ai_native_sweng.Workflow.Engine.Registries.{investigation_tools, implementation_tools}
use ai_native_sweng.Tools.Contracts.{
  HarnessTool, list_files, search_text, read_file, inspect_git_status, create_file, replace_text,
  delete_file, inspect_diff, run_validation_command, run_read_only_command, tool_name, contract_of,
}

module _ (cost_budget_usd : Float) (iteration_limit : ℤ) where
  -- A tool that the contract of a reviewer grants only observes (side-effect class 0) and is one that
  -- the investigation stage registers; the tools that the implementation stage and the executor of a
  -- write task register are those that the contracts of the implementer and of the fix worker grant,
  -- in the same order.
  pub granted_tools_lem :
      (concern : String) (tool : HarnessTool)
      → contains
          (reviewer_contract concern cost_budget_usd iteration_limit).allowed_capabilities
          (tool_name tool)
        ≡ true
      → ((contract_of tool).side_effect_class ≡ 0)
        × (contains (map tool_name investigation_tools) (tool_name tool) ≡ true)
        × (map tool_name implementation_tools
            ≡ (implementer_contract cost_budget_usd iteration_limit).allowed_capabilities)
        × (map tool_name canonical_tools
            ≡ (fix_worker_contract cost_budget_usd iteration_limit).allowed_capabilities)
  unfolding contains tool_name contract_of reviewer_contract implementer_contract
      fix_worker_contract
  granted_tools_lem concern list_files h = (refl, refl, refl, refl)
  granted_tools_lem concern search_text h = (refl, refl, refl, refl)
  granted_tools_lem concern read_file h = (refl, refl, refl, refl)
  granted_tools_lem concern inspect_git_status h = (refl, refl, refl, refl)
  granted_tools_lem concern run_read_only_command h = (refl, refl, refl, refl)
  granted_tools_lem concern inspect_diff h = ground (arith, h)
  granted_tools_lem concern create_file h = ground (arith, h)
  granted_tools_lem concern replace_text h = ground (arith, h)
  granted_tools_lem concern delete_file h = ground (arith, h)
  granted_tools_lem concern run_validation_command h = ground (arith, h)
