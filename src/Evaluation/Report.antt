-- ===== src/Evaluation/Report.antt =====
-- src/anse_harness/evaluation/report.py: claim checklists, evaluation reports and comparison
-- matrices, with the summaries of evaluation/metrics.py that a report holds.
pub mod Matrix
pub mod Render
use ai_native_sweng.Prelude.{
  String, Bool, not, ◌==◌, Option, List, [], ◌∷◌, map, Result, ok, evaluation_error, guard, ◌>>◌,
  contains, concat, join, strip,
}
use ai_native_sweng.Json.Value.{
  ℤ, Float, bool, int, float, str, obj, Dict, dict, array, strings, optional,
}

abbrev pub metric_categories : List String
metric_categories = "outcome" ∷ "process" ∷ "safety" ∷ "economic" ∷ "human-impact" ∷ []

abbrev pub mode_labels : List String
mode_labels = "scripted" ∷ "replay" ∷ "live" ∷ "live-recorded" ∷ "illustrative" ∷ []

pub record ClaimChecklist : Type 0 where
  pub task_set : String
  pub baseline : String
  pub configuration : String
  pub grader : String
  pub number_of_runs : String
  pub limitations : String

-- getattr, for the names of CLAIM_CHECKLIST_FIELDS in their order
abbrev pub checklist_fields : ClaimChecklist → List (String × String)
checklist_fields c =
    ("task_set", c.task_set)
    ∷ ("baseline", c.baseline)
    ∷ ("configuration", c.configuration)
    ∷ ("grader", c.grader)
    ∷ ("number_of_runs", c.number_of_runs)
    ∷ ("limitations", c.limitations)
    ∷ []

unfoldable pub none_blank : List (String × String) → Result (Unit {0})
unfolding strip
none_blank [] = ok tt
none_blank ((name, value) ∷ rest) = do
  guard (not (strip value == "")) evaluation_error
  none_blank rest

-- ClaimChecklist.__post_init__
unfoldable pub checked_checklist : ClaimChecklist → Result ClaimChecklist
unfolding none_blank
checked_checklist c = do none_blank (checklist_fields c); ok c

-- ClaimChecklist.to_payload
unfoldable pub checklist_payload : ClaimChecklist → Dict
checklist_payload c = dict (map (λ (name, value). (name, str value)) (checklist_fields c))

-- ClaimChecklist.render
unfoldable pub render_checklist : ClaimChecklist → String
unfolding concat join
render_checklist c = join "\n" (
    concat ("- Task set: " ∷ c.task_set ∷ [])
    ∷ concat ("- Baseline: " ∷ c.baseline ∷ [])
    ∷ concat ("- Configuration: " ∷ c.configuration ∷ [])
    ∷ concat ("- Grader: " ∷ c.grader ∷ [])
    ∷ concat ("- Number of runs: " ∷ c.number_of_runs ∷ [])
    ∷ concat ("- Limitations: " ∷ c.limitations ∷ [])
    ∷ [])

-- evaluation/metrics.py
pub record TaskConfigSummary : Type 0 where
  pub task_id : String
  pub config_id : String
  pub mode : String
  pub runs : ℤ
  pub infrastructure_runs : ℤ
  pub graded_runs : ℤ
  pub passes : ℤ
  pub pass_rate : Option Float
  pub failure_classes : List (String × ℤ)
  pub total_cost_usd : Float
  pub mean_cost_usd : Float
  pub mean_duration_seconds : Float
  pub total_tool_calls : ℤ
  pub repetitions_identical : Bool

-- TaskConfigSummary.to_payload
unfoldable pub summary_payload : TaskConfigSummary → Dict
summary_payload s = dict (
    ("task_id", str s.task_id)
    ∷ ("config_id", str s.config_id)
    ∷ ("mode", str s.mode)
    ∷ ("runs", int s.runs)
    ∷ ("infrastructure_runs", int s.infrastructure_runs)
    ∷ ("graded_runs", int s.graded_runs)
    ∷ ("passes", int s.passes)
    ∷ ("pass_rate", optional float s.pass_rate)
    ∷ (
      "failure_classes",
      array (map (λ (name, n). array (str name ∷ int n ∷ [])) s.failure_classes),
    )
    ∷ ("total_cost_usd", float s.total_cost_usd)
    ∷ ("mean_cost_usd", float s.mean_cost_usd)
    ∷ ("mean_duration_seconds", float s.mean_duration_seconds)
    ∷ ("total_tool_calls", int s.total_tool_calls)
    ∷ ("repetitions_identical", bool s.repetitions_identical)
    ∷ [])

pub record EvaluationReport : Type 0 where
  pub title : String
  pub mode : String
  pub summaries : List TaskConfigSummary
  pub grader_versions : List (String × String)
  pub claim_checklist : ClaimChecklist

-- EvaluationReport.__post_init__
unfoldable pub checked_report : EvaluationReport → Result EvaluationReport
unfolding contains
checked_report r = do guard (contains mode_labels r.mode) evaluation_error; ok r

-- EvaluationReport.to_payload
unfoldable pub report_payload : EvaluationReport → Dict
unfolding summary_payload checklist_payload
report_payload r = dict (
    ("title", str r.title)
    ∷ ("mode", str r.mode)
    ∷ ("summaries", array (map (λ s. obj (summary_payload s)) r.summaries))
    ∷ (
      "grader_versions",
      array (map (λ (id, version). strings (id ∷ version ∷ [])) r.grader_versions),
    )
    ∷ ("claim_checklist", obj (checklist_payload r.claim_checklist))
    ∷ [])
