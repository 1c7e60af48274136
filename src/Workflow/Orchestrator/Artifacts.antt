-- ===== src/Workflow/Orchestrator/Artifacts.antt =====
-- src/anse_harness/workflows/orchestrator.py: the specification's payload and the names of the
-- artifacts.
pub mod Distinct
use ai_native_sweng.Prelude.{String, List, [], ◌∷◌, map, concat}
use ai_native_sweng.Json.Value.{ℤ, int, str, Dict, dict, array, object, strings}
use ai_native_sweng.Json.Convert.{int_text}
use ai_native_sweng.Workflow.Graph.{TaskGraph}

pub record ReviewerSpec : Type 0 where
  pub reviewer_id : String
  pub concern : String

pub record MultiWorkerSpec : Type 0 where
  pub task_id : String
  pub description : String
  pub acceptance_criteria : List String
  pub graph : TaskGraph
  pub reviewers : List ReviewerSpec
  pub token_budget : ℤ

-- MultiWorkerSpec.to_payload
unfoldable pub multi_worker_spec_payload : MultiWorkerSpec → Dict
multi_worker_spec_payload s = dict (
    ("artifact_type", str "task_specification")
    ∷ ("task_id", str s.task_id)
    ∷ ("description", str s.description)
    ∷ ("acceptance_criteria", strings s.acceptance_criteria)
    ∷ (
      "reviewers",
      array (
          map (λ r. object (("reviewer_id", str r.reviewer_id) ∷ ("concern", str r.concern) ∷ []))
            s.reviewers),
    )
    ∷ ("token_budget", int s.token_budget)
    ∷ [])

unfoldable pub task_graph_artifact_id : String → String
task_graph_artifact_id task_id = concat ("task-graph-" ∷ task_id ∷ [])

unfoldable pub worker_patch_artifact_id : String → String → ℤ → String
worker_patch_artifact_id task_id worker_id attempt =
    concat ("patch-" ∷ task_id ∷ "-" ∷ worker_id ∷ "-" ∷ int_text attempt ∷ [])

unfoldable pub worker_validation_artifact_id : String → String → ℤ → String
worker_validation_artifact_id task_id worker_id attempt =
    concat ("validation-" ∷ task_id ∷ "-" ∷ worker_id ∷ "-" ∷ int_text attempt ∷ [])

unfoldable pub invocation_artifact_id : String → String → ℤ → String
invocation_artifact_id worker_id stage attempt =
    concat ("invocation-" ∷ worker_id ∷ "-" ∷ stage ∷ "-" ∷ int_text attempt ∷ [])

unfoldable pub integration_artifact_id : String → ℤ → String
integration_artifact_id task_id round_number =
    concat ("integration-" ∷ task_id ∷ "-" ∷ int_text round_number ∷ [])

unfoldable pub integrated_validation_artifact_id : String → ℤ → String
integrated_validation_artifact_id task_id round_number =
    concat ("validation-" ∷ task_id ∷ "-integrated-" ∷ int_text round_number ∷ [])

unfoldable pub findings_artifact_id : String → String → ℤ → String
findings_artifact_id task_id reviewer_id iteration =
    concat ("findings-" ∷ task_id ∷ "-" ∷ reviewer_id ∷ "-" ∷ int_text iteration ∷ [])

unfoldable pub consolidated_review_artifact_id : String → ℤ → String
consolidated_review_artifact_id task_id iteration =
    concat ("consolidated-review-" ∷ task_id ∷ "-" ∷ int_text iteration ∷ [])

unfoldable pub termination_report_artifact_id : String → String
termination_report_artifact_id task_id = concat ("termination-report-" ∷ task_id ∷ [])

unfoldable pub multi_result_artifact_id : String → String
multi_result_artifact_id task_id = concat ("result-" ∷ task_id ∷ [])
