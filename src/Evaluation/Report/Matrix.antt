-- ===== src/Evaluation/Report/Matrix.antt =====
-- src/anse_harness/evaluation/report.py: `ComparisonMatrix` and `matrix_from_comparison_report`.
pub mod Aligned
use Prim.Native.String.{count}
use ai_native_sweng.Prelude.{
  ℕ, ◌+◌, String, Option, none, some, List, [], ◌∷◌, ◌++◌, map, Result, ok, evaluation_error, guard,
  ◌>>◌, contains, concat, join, ljust, larger, largest_or, eqb, length,
}
use ai_native_sweng.Json.Convert.{int_text}
use ai_native_sweng.Workflow.Comparison.{Floats, ComparisonReport, yes_no}
use ai_native_sweng.Evaluation.Report.{mode_labels}

pub record Row : Type 0 where
  pub name : String
  pub values : List String

pub record ComparisonMatrix : Type 0 where
  pub task_set : String
  pub config_ids : List String
  pub rows : List Row
  pub mode : Option String

unfoldable pub labelled_mode : Option String → Result (Unit {0})
unfolding contains
labelled_mode none = ok tt
labelled_mode (some mode) = guard (contains mode_labels mode) evaluation_error

unfoldable pub rows_fit : ℕ → List Row → Result (Unit {0})
rows_fit n [] = ok tt
rows_fit n (row ∷ rest) = do guard (eqb (length row.values) n) evaluation_error; rows_fit n rest

-- ComparisonMatrix.__post_init__
unfoldable pub checked_comparison : ComparisonMatrix → Result ComparisonMatrix
unfolding labelled_mode rows_fit
checked_comparison m = do labelled_mode m.mode; rows_fit (length m.config_ids) m.rows; ok m

-- [len(value) for _, values in rows for value in values]
unfoldable pub value_lengths : List Row → List ℕ
value_lengths [] = []
value_lengths (row ∷ rest) = map count row.values ++ value_lengths rest

-- the width of the first column
unfoldable pub name_width : ComparisonMatrix → ℕ
unfolding largest_or larger
name_width m =
    larger (largest_or (count "dimension") (map (λ row. count row.name) m.rows)) (count "dimension")
    + 2

-- the width of the other columns
unfoldable pub column_width : ComparisonMatrix → ℕ
unfolding largest_or value_lengths
column_width m = largest_or 12 (map count m.config_ids ++ (value_lengths m.rows ++ 12 ∷ [])) + 2

-- one line of the table
unfoldable pub table_line : ComparisonMatrix → String → List String → String
unfolding concat ljust name_width column_width
table_line m name values =
    concat (ljust (name_width m) name ∷ concat (map (ljust (column_width m)) values) ∷ [])

-- the header and the rows
unfoldable pub table : ComparisonMatrix → List String
unfolding table_line
table m =
    table_line m "dimension" m.config_ids ∷ map (λ row. table_line m row.name row.values) m.rows

unfoldable pub mode_lines : Option String → List String
unfolding concat
mode_lines none = []
mode_lines (some mode) = concat ("Mode: " ∷ mode ∷ []) ∷ []

abbrev pub matrix_note : String
matrix_note =
    "This matrix states measurements; a documented negative result is as publishable as an advantage."

-- ComparisonMatrix.render
unfoldable pub render_matrix : ComparisonMatrix → String
unfolding concat join mode_lines table
render_matrix m = concat (
    join "\n" (
      concat ("Configuration comparison: " ∷ m.task_set ∷ [])
      ∷ (mode_lines m.mode ++ (table m ++ matrix_note ∷ [])))
    ∷ "\n"
    ∷ [])

module _ (fl : Floats) where
  -- the rows that matrix_from_comparison_report builds
  unfoldable pub labelled_rows : ComparisonReport → List Row
  unfolding int_text yes_no
  labelled_rows r =
      record { name = "outcome (outcome)"; values = r.single.outcome ∷ r.multi.outcome ∷ [] }
      ∷ record {
        name = "monetary cost USD (economic)";
        values = fl.fixed 6 r.single.monetary_cost_usd ∷ fl.fixed 6 r.multi.monetary_cost_usd ∷ [];
      }
      ∷ record {
        name = "elapsed s (process)";
        values = fl.fixed 3 r.single.elapsed_seconds ∷ fl.fixed 3 r.multi.elapsed_seconds ∷ [];
      }
      ∷ record {
        name = "worker invocations (process)";
        values = int_text r.single.worker_invocations ∷ int_text r.multi.worker_invocations ∷ [];
      }
      ∷ record {
        name = "review iterations (process)";
        values = int_text r.single.review_iterations ∷ int_text r.multi.review_iterations ∷ [];
      }
      ∷ record {
        name = "accepted findings (process)";
        values = int_text r.single.accepted_findings ∷ int_text r.multi.accepted_findings ∷ [];
      }
      ∷ record {
        name = "patch produced (outcome)";
        values = yes_no r.single.patch_produced ∷ yes_no r.multi.patch_produced ∷ [];
      }
      ∷ []

  -- matrix_from_comparison_report, whose constructor may raise
  unfoldable pub matrix_from_comparison_report : ComparisonReport → Result ComparisonMatrix
  unfolding checked_comparison labelled_rows
  matrix_from_comparison_report r = checked_comparison (record {
    task_set = r.task_id;
    config_ids = r.single.architecture ∷ r.multi.architecture ∷ [];
    rows = labelled_rows r;
    mode = none;
  })
