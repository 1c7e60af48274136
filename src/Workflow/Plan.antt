-- ===== src/Workflow/Plan.antt =====
-- src/anse_harness/workflows/plan.py: the plan artifact.
pub mod RoundTrip
pub mod Texts
use ai_native_sweng.Prelude.{String, List, [], ◌∷◌, Result, ok, ◌>>=◌}
use ai_native_sweng.Json.Value.{str, Dict, dict, array, strings}
use ai_native_sweng.Json.Convert.{Builtins, index, get_or, as_str, as_strings}

pub record PlanArtifact : Type 0 where
  pub plan_id : String
  pub task_id : String
  pub goal : String
  pub assumptions : List String
  pub steps : List String
  pub validation_strategy : List String
  pub risks : List String
  pub expected_artifacts : List String
  pub stop_conditions : List String

-- PlanArtifact.plan_payload
unfoldable pub plan_payload : PlanArtifact → Dict
plan_payload r = dict (
    ("artifact_type", str "plan")
    ∷ ("plan_id", str r.plan_id)
    ∷ ("task_id", str r.task_id)
    ∷ ("goal", str r.goal)
    ∷ ("assumptions", strings r.assumptions)
    ∷ ("steps", strings r.steps)
    ∷ ("validation_strategy", strings r.validation_strategy)
    ∷ ("risks", strings r.risks)
    ∷ ("expected_artifacts", strings r.expected_artifacts)
    ∷ ("stop_conditions", strings r.stop_conditions)
    ∷ [])

module _ (py : Builtins) where
  -- PlanArtifact.plan_artifact
  unfoldable pub plan_artifact : Dict → Result PlanArtifact
  plan_artifact d = do
    plan_id_raw ← index d "plan_id"
    task_id_raw ← index d "task_id"
    goal_raw ← index d "goal"
    assumptions ← as_strings py (get_or d "assumptions" (array []))
    steps ← as_strings py (get_or d "steps" (array []))
    validation_strategy ← as_strings py (get_or d "validation_strategy" (array []))
    risks ← as_strings py (get_or d "risks" (array []))
    expected_artifacts ← as_strings py (get_or d "expected_artifacts" (array []))
    stop_conditions ← as_strings py (get_or d "stop_conditions" (array []))
    ok (record {
      plan_id = as_str py plan_id_raw;
      task_id = as_str py task_id_raw;
      goal = as_str py goal_raw;
      assumptions = assumptions;
      steps = steps;
      validation_strategy = validation_strategy;
      risks = risks;
      expected_artifacts = expected_artifacts;
      stop_conditions = stop_conditions;
    })
