-- ===== src/Evaluation/Report/Render.antt =====
-- src/anse_harness/evaluation/report.py: `EvaluationReport.render`.
use ai_native_sweng.Prelude.{
  String, Bool, Option, none, some, List, [], ◌∷◌, ◌++◌, map, ◌||◌, ◌&&◌, ◌==◌, concat, join,
  if◌then◌else◌,
}
use ai_native_sweng.Json.Value.{ℤ, Float}
use ai_native_sweng.Json.Convert.{int_text}
use ai_native_sweng.Workflow.Comparison.{Floats}
use ai_native_sweng.Evaluation.Report.{TaskConfigSummary, EvaluationReport, render_checklist}

abbrev pub deterministic_mode_note : String
deterministic_mode_note =
    "Repeated runs in this mode are identical by construction: model responses are fixed, so re-running reproduces the same result at zero live model spend. The absence of spread below is a property of the mode, not evidence of reliability; success-rate variance, flaky rates, and pass@k are properties of live runs only."

abbrev pub live_mode_note : String
live_mode_note =
    "Live runs sample from a model: the same task and configuration produce different runs, costs, and outcomes. Single-run figures below are point observations, not distributions."

-- _failure_classes
unfoldable pub failure_classes_text : List (String × ℤ) → String
unfolding join concat int_text
failure_classes_text [] = "-"
failure_classes_text (pair ∷ rest) =
    join "; " (map (λ (name, n). concat (name ∷ " x" ∷ int_text n ∷ [])) (pair ∷ rest))

-- mode in ("scripted", "replay")
unfoldable pub is_deterministic : String → Bool
is_deterministic mode = mode == "scripted" || mode == "replay"

-- the cell on the repetitions
unfoldable pub repetitions_text : Bool → TaskConfigSummary → String
unfolding int_text concat
repetitions_text deterministic cell =
    if deterministic && cell.repetitions_identical
    then concat (int_text cell.runs ∷ " (identical by construction)" ∷ [])
    else if cell.repetitions_identical
    then concat (int_text cell.runs ∷ " (identical)" ∷ [])
    else concat (int_text cell.runs ∷ " (differing)" ∷ [])

module _ (fl : Floats) where
  -- _percent
  unfoldable pub percent_text : Option Float → String
  percent_text none = "unmeasured"
  percent_text (some rate) = fl.percent rate

  -- the line of one task and configuration
  unfoldable pub cell_line : Bool → TaskConfigSummary → String
  unfolding concat repetitions_text percent_text failure_classes_text int_text
  cell_line deterministic cell = concat (
      "| "
      ∷ cell.task_id
      ∷ " | "
      ∷ cell.config_id
      ∷ " | "
      ∷ cell.mode
      ∷ " | "
      ∷ int_text cell.runs
      ∷ " | "
      ∷ repetitions_text deterministic cell
      ∷ " | "
      ∷ percent_text cell.pass_rate
      ∷ " | "
      ∷ fl.fixed 6 cell.total_cost_usd
      ∷ " | "
      ∷ fl.fixed 3 cell.mean_duration_seconds
      ∷ " | "
      ∷ int_text cell.total_tool_calls
      ∷ " | "
      ∷ failure_classes_text cell.failure_classes
      ∷ " | "
      ∷ int_text cell.infrastructure_runs
      ∷ " |"
      ∷ [])

  -- EvaluationReport.render
  unfoldable pub render_report : EvaluationReport → String
  unfolding concat join is_deterministic cell_line render_checklist
  render_report r =
      let deterministic = is_deterministic r.mode in
      concat (
        join "\n" (
          concat ("# " ∷ r.title ∷ [])
          ∷ ""
          ∷ concat (
              "Mode: " ∷ r.mode
              ∷ ". Every figure in this report was produced in this mode and is labeled with its measurement category (canonical section 7)."
              ∷ [])
          ∷ ""
          ∷ (if deterministic then deterministic_mode_note else live_mode_note)
          ∷ ""
          ∷ "## Results by task and configuration"
          ∷ ""
          ∷ "| task | configuration | mode | runs | repetitions | pass rate (outcome) | attributed model cost USD (economic) | mean duration s (process) | tool calls (process) | failure classes (process) | infrastructure runs (excluded from denominator) |"
          ∷ "|---|---|---|---|---|---|---|---|---|---|---|"
          ∷ (map (cell_line deterministic) r.summaries
              ++ (""
                  ∷ "Pass-rate denominators count graded runs only; infrastructure failures (harness, environment, or grader faults) are shown in their own column and never counted as task failures."
                  ∷ ""
                  ∷ "## Grader versions"
                  ∷ ""
                  ∷ (map (λ (id, version). concat ("- " ∷ id ∷ " @ " ∷ version ∷ []))
                        r.grader_versions
                      ++ (""
                          ∷ "## Claim checklist (canonical 7.7)"
                          ∷ ""
                          ∷ render_checklist r.claim_checklist
                          ∷ [])))))
        ∷ "\n"
        ∷ [])
