-- ===== src/Validation.antt =====
-- src/anse_harness/validation/pipeline.py: the checks of a run, their results and the report.
-- `ValidationPipeline.run` raises in the source.
use ai_native_sweng.Prelude.{
  String, Bool, true, Option, List, [], ◌∷◌, map, ◌&&◌, concat, join, if◌then◌else◌, none, some,
}
use ai_native_sweng.Json.Value.{ℤ, bool, int, str, obj, Dict, dict, array, strings, optional}
use ai_native_sweng.Json.Convert.{int_text}

pub record ValidationCheck : Type 0 where
  pub name : String
  pub command : List String

pub record CheckResult : Type 0 where
  pub name : String
  pub command : List String
  pub passed : Bool
  pub exit_code : Option ℤ
  pub output : String

pub record ValidationReport : Type 0 where
  pub results : List CheckResult

-- CheckResult.to_payload; `passed` is the field `ok`
unfoldable pub check_payload : CheckResult → Dict
check_payload r = dict (
    ("name", str r.name)
    ∷ ("command", strings r.command)
    ∷ ("ok", bool r.passed)
    ∷ ("exit_code", optional int r.exit_code)
    ∷ ("output", str r.output)
    ∷ [])

-- all(result.ok for result in results)
unfoldable pub all_passed : List CheckResult → Bool
all_passed [] = true
all_passed (r ∷ rest) = r.passed && all_passed rest

-- ValidationReport.ok
unfoldable pub report_passed : ValidationReport → Bool
unfolding all_passed
report_passed report = all_passed report.results

-- ValidationReport.to_payload
unfoldable pub validation_payload : ValidationReport → Dict
unfolding report_passed check_payload
validation_payload report = dict (
    ("ok", bool (report_passed report))
    ∷ ("checks", array (map (λ r. obj (check_payload r)) report.results))
    ∷ [])

-- f"{exit_code}"
unfoldable pub exit_text : Option ℤ → String
unfolding int_text
exit_text none = "None"
exit_text (some n) = int_text n

unfoldable pub summary_line : CheckResult → String
unfolding concat exit_text
summary_line r = concat (
    r.name
    ∷ ": "
    ∷ (if r.passed then "ok" else concat ("failed (exit " ∷ exit_text r.exit_code ∷ ")" ∷ []))
    ∷ [])

-- validation_summary_from_report of workers/runner.py
unfoldable pub validation_summary_from_report : ValidationReport → String
unfolding join summary_line
validation_summary_from_report report = join "\n" (map summary_line report.results)
