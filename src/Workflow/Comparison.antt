-- ===== src/Workflow/Comparison.antt =====
-- src/anse_harness/workflows/comparison.py: the report on a single-worker and a multi-worker run.
-- The arithmetic of floats and their notation in an f-string are arguments.
use ai_native_sweng.Prelude.{
  ℕ, ◌+◌, ◌-◌, String, Bool, Option, List, [], ◌∷◌, ◌++◌, map, concat, join, ljust, if◌then◌else◌,
  ltb,
}
use ai_native_sweng.Json.Value.{
  ℤ, pos, negsuc, Float, bool, int, float, str, obj, Dict, dict, optional,
}
use ai_native_sweng.Json.Convert.{int_text}

pub record Floats : Type 0 where
  -- f"{x:.{n}f}"
  pub fixed : ℕ → Float → String
  -- f"{x:+.6f}"
  pub signed_fixed6 : Float → String
  -- f"{x:.0%}"
  pub percent : Float → String
  -- round(x - y, 10)
  pub rounded_difference : Float → Float → Float

-- m - n, for two natural numbers
unfoldable pub difference : ℕ → ℕ → ℤ
difference m n = if ltb m n then negsuc (n - m - 1) else pos (m - n)

-- m - n
unfoldable pub minus : ℤ → ℤ → ℤ
unfolding difference
minus (pos m) (pos n) = difference m n
minus (pos m) (negsuc n) = pos (m + n + 1)
minus (negsuc m) (pos n) = negsuc (m + n)
minus (negsuc m) (negsuc n) = difference n m

-- f"{n:+d}"
unfoldable pub signed_text : ℤ → String
unfolding int_text concat
signed_text (pos n) = concat ("+" ∷ int_text (pos n) ∷ [])
signed_text (negsuc n) = int_text (negsuc n)

-- comparison_artifact_id
unfoldable pub comparison_artifact_id : String → String
unfolding concat
comparison_artifact_id task_id = concat ("comparison-" ∷ task_id ∷ [])

pub record ComparisonSide : Type 0 where
  pub architecture : String
  pub outcome : String
  pub termination_reason : Option String
  pub monetary_cost_usd : Float
  pub elapsed_seconds : Float
  pub worker_invocations : ℤ
  pub review_iterations : ℤ
  pub accepted_findings : ℤ
  pub patch_produced : Bool

pub record ComparisonReport : Type 0 where
  pub task_id : String
  pub single : ComparisonSide
  pub multi : ComparisonSide

-- ComparisonSide.to_payload
unfoldable pub side_payload : ComparisonSide → Dict
side_payload s = dict (
    ("architecture", str s.architecture)
    ∷ ("outcome", str s.outcome)
    ∷ ("termination_reason", optional str s.termination_reason)
    ∷ ("monetary_cost_usd", float s.monetary_cost_usd)
    ∷ ("elapsed_seconds", float s.elapsed_seconds)
    ∷ ("worker_invocations", int s.worker_invocations)
    ∷ ("review_iterations", int s.review_iterations)
    ∷ ("accepted_findings", int s.accepted_findings)
    ∷ ("patch_produced", bool s.patch_produced)
    ∷ [])

-- ComparisonReport.worker_delta
unfoldable pub worker_delta : ComparisonReport → ℤ
unfolding minus
worker_delta r = minus r.multi.worker_invocations r.single.worker_invocations

-- "yes" if produced else "no"
unfoldable pub yes_no : Bool → String
yes_no b = if b then "yes" else "no"

-- one dimension and its value in either run
pub record Dimension : Type 0 where
  pub name : String
  pub single_value : String
  pub multi_value : String

module _ (fl : Floats) where
  -- ComparisonReport.cost_delta_usd
  unfoldable pub cost_delta_usd : ComparisonReport → Float
  cost_delta_usd r = fl.rounded_difference r.multi.monetary_cost_usd r.single.monetary_cost_usd

  -- ComparisonReport.to_payload
  unfoldable pub comparison_payload : ComparisonReport → Dict
  unfolding side_payload cost_delta_usd worker_delta
  comparison_payload r = dict (
      ("artifact_type", str "comparison_report")
      ∷ ("task_id", str r.task_id)
      ∷ ("single", obj (side_payload r.single))
      ∷ ("multi", obj (side_payload r.multi))
      ∷ ("cost_delta_usd", float (cost_delta_usd r))
      ∷ ("worker_delta", int (worker_delta r))
      ∷ [])

  dimension : String → (ComparisonSide → String) → ComparisonReport → Dimension
  dimension name value r = record {
    name = name;
    single_value = value r.single;
    multi_value = value r.multi;
  }

  -- the rows of ComparisonReport.render
  unfoldable pub report_rows : ComparisonReport → List Dimension
  unfolding yes_no int_text dimension
  report_rows r =
      dimension "outcome" (λ s. s.outcome) r
      ∷ dimension "monetary cost (USD)" (λ s. fl.fixed 6 s.monetary_cost_usd) r
      ∷ dimension "elapsed (s)" (λ s. fl.fixed 3 s.elapsed_seconds) r
      ∷ dimension "worker invocations" (λ s. int_text s.worker_invocations) r
      ∷ dimension "review iterations" (λ s. int_text s.review_iterations) r
      ∷ dimension "accepted findings" (λ s. int_text s.accepted_findings) r
      ∷ dimension "patch produced" (λ s. yes_no s.patch_produced) r
      ∷ []

  -- f"{name:<22} {single:<16} {multi:<16}"
  unfoldable pub row_line : Dimension → String
  unfolding concat ljust
  row_line d =
      concat (ljust 22 d.name ∷ " " ∷ ljust 16 d.single_value ∷ " " ∷ ljust 16 d.multi_value ∷ [])

  -- ComparisonReport.render
  unfoldable pub render_comparison : ComparisonReport → String
  unfolding report_rows row_line concat join signed_text cost_delta_usd worker_delta
  render_comparison r = concat (
      join "\n" (
        concat ("Comparison report: " ∷ r.task_id ∷ [])
        ∷ row_line (record {
          name = "dimension";
          single_value = "single-worker";
          multi_value = "multi-worker";
        })
        ∷ (map row_line (report_rows r)
            ++ concat (
                "cost delta (multi - single): "
                ∷ fl.signed_fixed6 (cost_delta_usd r)
                ∷ " USD; worker delta: "
                ∷ signed_text (worker_delta r)
                ∷ [])
              ∷ []))
      ∷ "\n"
      ∷ [])
