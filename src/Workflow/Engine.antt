-- ===== src/Workflow/Engine.antt =====
-- src/anse_harness/workflows/engine.py: the stages and the transition table of the single-worker
-- workflow, its task specification and the identifiers of its artifacts.
pub mod Registries
pub mod Ending
pub mod StageTrace
use ai_native_sweng.Prelude.{String, Bool, false, Option, List, [], ◌∷◌, ◌||◌, ◌==◌, concat}
use ai_native_sweng.Json.Value.{ℤ, int, str, Dict, dict, strings, optional}
use ai_native_sweng.Json.Convert.{int_text}

pub data Stage : Type 0 where
  intake investigate plan plan_approval implement validate prepare_result completed failed cancelled
        escalated :
      Stage

unfoldable pub stage_value : Stage → String
stage_value intake = "intake"
stage_value investigate = "investigate"
stage_value plan = "plan"
stage_value plan_approval = "plan_approval"
stage_value implement = "implement"
stage_value validate = "validate"
stage_value prepare_result = "prepare_result"
stage_value completed = "completed"
stage_value failed = "failed"
stage_value cancelled = "cancelled"
stage_value escalated = "escalated"

-- TERMINAL_STAGES
unfoldable pub terminal_stages : List Stage
terminal_stages = completed ∷ failed ∷ cancelled ∷ escalated ∷ []

-- TRANSITIONS
unfoldable pub transitions : Stage → List Stage
transitions intake = investigate ∷ cancelled ∷ []
transitions investigate = plan ∷ failed ∷ escalated ∷ cancelled ∷ []
transitions plan = plan_approval ∷ failed ∷ escalated ∷ cancelled ∷ []
transitions plan_approval = implement ∷ cancelled ∷ []
transitions implement = validate ∷ failed ∷ escalated ∷ cancelled ∷ []
transitions validate = prepare_result ∷ failed ∷ cancelled ∷ []
transitions prepare_result = completed ∷ failed ∷ cancelled ∷ []
transitions completed = []
transitions failed = []
transitions cancelled = []
transitions escalated = []

-- `stage in stages`
unfoldable pub stage_in : Stage → List Stage → Bool
unfolding stage_value
stage_in s [] = false
stage_in s (t ∷ rest) = stage_value t == stage_value s || stage_in s rest

pub record WorkflowTaskSpec : Type 0 where
  pub task_id : String
  pub description : String
  pub acceptance_criteria : List String
  pub worker_type : String
  pub token_budget : ℤ
  pub search_terms : Option (List String)
  pub conflict_topics : List String

-- WorkflowTaskSpec.to_payload
unfoldable pub task_spec_payload : WorkflowTaskSpec → Dict
task_spec_payload s = dict (
    ("artifact_type", str "task_specification")
    ∷ ("task_id", str s.task_id)
    ∷ ("description", str s.description)
    ∷ ("acceptance_criteria", strings s.acceptance_criteria)
    ∷ ("worker_type", str s.worker_type)
    ∷ ("token_budget", int s.token_budget)
    ∷ ("search_terms", optional strings s.search_terms)
    ∷ ("conflict_topics", strings s.conflict_topics)
    ∷ [])

unfoldable pub task_spec_artifact_id : String → String
unfolding concat
task_spec_artifact_id task_id = concat ("task-spec-" ∷ task_id ∷ [])

unfoldable pub investigation_artifact_id : String → String
unfolding concat
investigation_artifact_id task_id = concat ("investigation-" ∷ task_id ∷ [])

unfoldable pub plan_artifact_id : String → String
unfolding concat
plan_artifact_id task_id = concat ("plan-" ∷ task_id ∷ [])

unfoldable pub patch_artifact_id : String → ℤ → String
unfolding concat
patch_artifact_id task_id attempt = concat ("patch-" ∷ task_id ∷ "-" ∷ int_text attempt ∷ [])

unfoldable pub validation_artifact_id : String → ℤ → String
unfolding concat
validation_artifact_id task_id attempt =
    concat ("validation-" ∷ task_id ∷ "-" ∷ int_text attempt ∷ [])

unfoldable pub result_artifact_id : String → String
unfolding concat
result_artifact_id task_id = concat ("result-" ∷ task_id ∷ [])
