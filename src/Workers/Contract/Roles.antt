-- ===== src/Workers/Contract/Roles.antt =====
-- src/anse_harness/workers/contract.py: the capability registries and the three contracts that
-- the harness gives its workers. A default argument of the source is an argument here.
use ai_native_sweng.Prelude.{String, List, [], ◌∷◌, contains, if◌then◌else◌, concat}
use ai_native_sweng.Json.Value.{ℤ, pos, Float}
use ai_native_sweng.Workers.Contract.{WorkerContract}

abbrev pub read_only_capabilities : List String
read_only_capabilities =
    "list_files" ∷ "search_text" ∷ "read_file" ∷ "inspect_git_status" ∷ "run_read_only_command" ∷ []

abbrev pub write_capabilities : List String
write_capabilities =
    "list_files" ∷ "search_text" ∷ "read_file" ∷ "inspect_git_status" ∷ "create_file"
    ∷ "replace_text" ∷ "delete_file" ∷ "inspect_diff" ∷ "run_validation_command" ∷ []

-- the names of `xs` that are not in `ys`
unfoldable pub without : List String → List String → List String
unfolding contains
without [] ys = []
without (x ∷ xs) ys = let rest = without xs ys in if contains ys x then rest else x ∷ rest

-- WRITE_ONLY_CAPABILITIES
unfoldable pub write_only_capabilities : List String
unfolding without
write_only_capabilities = without write_capabilities read_only_capabilities

unfoldable pub implementer_contract : Float → ℤ → WorkerContract
implementer_contract cost_budget_usd iteration_limit = record {
  worker_type = "implementer";
  purpose =
      "Implement one bounded sub-task of the decomposed feature inside an isolated sandbox worktree and surface the change as a patch artifact.";
  input_schema = ("task_node" ∷ "context_packet" ∷ []);
  output_schema = ("patch_artifact" ∷ "validation_report" ∷ []);
  context = record {
    required =
        ("sub_task_description" ∷ "acceptance_criteria" ∷ "owned_paths" ∷ "relevant_source" ∷ []);
    excluded = ("sibling_worker_conversations" ∷ "unrelated_repository_files" ∷ []);
  };
  allowed_capabilities = write_capabilities;
  prohibited_capabilities = ("merge" ∷ "push" ∷ "create_pull_request" ∷ []);
  model_policy = "scripted or replay in course runs; live mode is budget-gated";
  time_budget_seconds = pos 600;
  cost_budget_usd = cost_budget_usd;
  iteration_limit = iteration_limit;
  success_criteria =
      ("the change passes the validation pipeline"
        ∷ "the approved patch touches only the sub-task's owned paths" ∷ []);
  failure_criteria =
      ("validation fails or the patch approval is rejected"
        ∷ "an iteration or cost limit stops the run before a patch exists" ∷ []);
  escalation_conditions = ("the cost budget is exhausted before completion" ∷ []);
  trace_requirements = "one trace file per worker invocation, worker-scoped run ids";
}

unfoldable pub reviewer_contract : String → Float → ℤ → WorkerContract
unfolding write_only_capabilities concat
reviewer_contract concern cost_budget_usd iteration_limit = record {
  worker_type = concat (concern ∷ "_reviewer" ∷ []);
  purpose = concat (
      "Identify " ∷ concern
      ∷ " defects in the integrated change, with evidence, as a fresh instance with no implementer reasoning history."
      ∷ []);
  input_schema = ("task_specification" ∷ "integrated_diff" ∷ "validation_results" ∷ []);
  output_schema = ("findings" ∷ "conclusion" ∷ []);
  context = record {
    required =
        ("task_specification" ∷ "acceptance_criteria" ∷ "integrated_diff" ∷ "relevant_source"
          ∷ "validation_results" ∷ []);
    excluded =
        ("implementer_reasoning_history" ∷ "implementer_self_assessment"
          ∷ "previous_reviewer_conclusions" ∷ "fix_worker_conversations" ∷ []);
  };
  allowed_capabilities = read_only_capabilities;
  prohibited_capabilities = write_only_capabilities;
  model_policy = "scripted or replay in course runs; live mode is budget-gated";
  time_budget_seconds = pos 600;
  cost_budget_usd = cost_budget_usd;
  iteration_limit = iteration_limit;
  success_criteria =
      ("findings use the structured schema" ∷ "every finding carries evidence"
        ∷ "the conclusion is explicit" ∷ []);
  failure_criteria = ("the run ends without an explicit conclusion" ∷ []);
  escalation_conditions = ("requirements are ambiguous" ∷ "evidence is contradictory" ∷ []);
  trace_requirements = "one trace file per reviewer invocation, worker-scoped run ids";
}

unfoldable pub fix_worker_contract : Float → ℤ → WorkerContract
fix_worker_contract cost_budget_usd iteration_limit = record {
  worker_type = "fix_worker";
  purpose =
      "Resolve accepted review findings on the current integrated revision as a fresh instance, receiving the findings and their evidence - never the review conversation.";
  input_schema = ("accepted_findings" ∷ "integrated_diff" ∷ "acceptance_criteria" ∷ []);
  output_schema = ("patch_artifact" ∷ "validation_report" ∷ []);
  context = record {
    required =
        ("accepted_findings_with_evidence" ∷ "affected_files" ∷ "acceptance_criteria"
          ∷ "current_integrated_revision" ∷ []);
    excluded =
        ("review_conversation" ∷ "implementer_reasoning_history" ∷ "unrelated_findings" ∷ []);
  };
  allowed_capabilities = write_capabilities;
  prohibited_capabilities = ("merge" ∷ "push" ∷ "create_pull_request" ∷ []);
  model_policy = "scripted or replay in course runs; live mode is budget-gated";
  time_budget_seconds = pos 600;
  cost_budget_usd = cost_budget_usd;
  iteration_limit = iteration_limit;
  success_criteria =
      ("the assigned findings' defects are resolved" ∷ "the change passes the validation pipeline"
        ∷ []);
  failure_criteria =
      ("validation fails or the patch approval is rejected"
        ∷ "the fix does not apply onto the integrated revision" ∷ []);
  escalation_conditions = ("the cost budget is exhausted before completion" ∷ []);
  trace_requirements = "one trace file per fix invocation, worker-scoped run ids";
}
