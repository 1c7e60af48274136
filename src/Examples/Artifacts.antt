-- ===== src/Examples/Artifacts.antt =====
-- Files, diffs and tables at concrete texts.
use Prim.Native.String.{count}
use ai_native_sweng.Prelude.{
  String, Bool, true, false, Option, none, some, List, [], ◌∷◌, ◌≡◌, ◌⊎◌, refl, map, concat, join,
  Error, ok, err, runtime_error, All, splitlines, contains, length, ◌+◌, if◌then◌else◌, ◌==◌,
  eq_iff, arith, ◌≢◌, ◌++◌, object_text, IsUnbroken, is_newline,
}
use ai_native_sweng.Json.Value.{
  pos, Json, null, bool, int, float, str, arr, obj, Dict, lookup, items,
}
use ai_native_sweng.Json.Convert.{reading}
use ai_native_sweng.Examples.Boundary.{strict}
use ai_native_sweng.Examples.Traces.{secret_event, recorder}
use ai_native_sweng.Tracing.Event.{TraceEvent, to_dict, from_dict, checked_event}
use ai_native_sweng.Tracing.Redaction.{redacted, redact_event, redact_keys, redact_value, holds}
use ai_native_sweng.Tracing.Recorder.{Recorder, write}
use ai_native_sweng.Tracing.File.{sorted_dict, sorted_event, trace_text, read_trace}
use ai_native_sweng.Tracing.File.Lines.{IsObjectText}
use ai_native_sweng.Tracing.File.ReadBack.{read_trace-write}
use ai_native_sweng.Workflow.Integration.{Sandbox, changed_paths}
use ai_native_sweng.Workflow.Integration.Headers.{AreNamed}
use ai_native_sweng.Workflow.Integration.Changed.{firsts, changed_paths_lem}
use ai_native_sweng.Evaluation.Dataset.Accepted.{AreDifferent}
use ai_native_sweng.Workflow.Comparison.{Floats, ComparisonSide, ComparisonReport, report_rows}
use ai_native_sweng.Evaluation.Report.Matrix.{
  ComparisonMatrix, checked_comparison, table, mode_lines, matrix_note, render_matrix,
  matrix_from_comparison_report,
}
use ai_native_sweng.Evaluation.Report.Matrix.Aligned.{
  table_width, render_matrix-aligned, matrix_from_comparison_report_lem,
}
use ai_native_sweng.Evaluation.Runner.{RunRecord, checked_run}
use ai_native_sweng.Evaluation.Runner.Records.{records_payload, write_run_records, read_run_records}
use ai_native_sweng.Evaluation.Runner.Records.ReadBack.{read_run_records-write_run_records}
use ai_native_sweng.Evaluation.Runner.Executor.{AttemptRequest, Runtime, execute}
use ai_native_sweng.Tools.Contracts.{HarnessTool}
use ai_native_sweng.Evaluation.Runner.Executor.Cleanup.{execute-cleaned}

abbrev first_event : TraceEvent
first_event = record (secret_event redacted) { event_id = "int-0000" }

abbrev one_line : Recorder
one_line = record recorder { lines = to_dict first_event ∷ [] }

-- a writer and a reader that know these two events
abbrev id_text : Option Json → String
id_text (some (str s)) = if s == "int-0000" then "{0}" else "{1}"
id_text _ = "{1}"

abbrev some_dumps : Dict → String
some_dumps d = id_text (lookup "event_id" d)

abbrev some_loads : String → Option Json
some_loads t =
    if t == "{0}"
    then some (obj (sorted_dict (to_dict first_event)))
    else some (obj (sorted_dict (to_dict (secret_event redacted))))

some_dumped : (d : Dict) → IsObjectText (some_dumps d)
unfolding object_text IsUnbroken is_newline
some_dumped d = by_id (lookup "event_id" d)
  where
    by_test : (b : Bool) → IsObjectText (if b then "{0}" else "{1}")
    by_test true = record { body = "0"; text_is = refl; unbroken = (refl, tt) }
    by_test false = record { body = "1"; text_is = refl; unbroken = (refl, tt) }

    by_id : (o : Option Json) → IsObjectText (id_text o)
    by_id (some (str s)) = by_test (s == "int-0000")
    by_id none = by_test false
    by_id (some null) = by_test false
    by_id (some (bool b)) = by_test false
    by_id (some (int n)) = by_test false
    by_id (some (float f)) = by_test false
    by_id (some (arr xs)) = by_test false
    by_id (some (obj d)) = by_test false

read_trace-write_example :
    read_trace strict some_loads
      (trace_text some_dumps (write (secret_event (str "hunter2")) one_line).1.lines)
    ≡ ok (sorted_event first_event ∷ [] ++ sorted_event (secret_event redacted) ∷ [])
unfolding reading redact_event redact_keys redact_value holds read_trace trace_text checked_event
    to_dict from_dict sorted_dict sorted_event items contains
read_trace-write_example =
    read_trace-write strict some_loads some_dumps some_dumped one_line
      (secret_event (str "hunter2")) (secret_event redacted) (sorted_event first_event ∷ []) refl
      refl refl refl

abbrev small_diff : String
small_diff = "--- a/x.py\n+++ b/x.py\n@@ -1 +1 @@\r\n--- a/y.py\n+++ /dev/null"

changed_paths_lem_example :
    (ps : List String) × AreNamed (splitlines small_diff) ps
    × (changed_paths small_diff ≡ firsts ps)
    × AreDifferent (changed_paths small_diff)
changed_paths_lem_example = changed_paths_lem small_diff

changed_paths_small : changed_paths small_diff ≡ "x.py" ∷ "y.py" ∷ []
unfolding changed_paths contains
changed_paths_small = refl

-- a removed line "-- a/y.py" is read as a header
changed_paths_of_text :
    changed_paths "--- a/x.sql\n+++ b/x.sql\n@@ -1 +0,0 @@\n--- a/y.py" ≡ "x.sql" ∷ "y.py" ∷ []
unfolding changed_paths contains
changed_paths_of_text = refl

abbrev small_matrix : ComparisonMatrix
small_matrix = record {
  task_set = "smoke";
  config_ids = "baseline" ∷ "a configuration with a long name" ∷ [];
  rows = record { name = "pass rate (outcome)"; values = "50%" ∷ "unmeasured" ∷ [] } ∷ [];
  mode = some "scripted";
}

render_matrix-aligned_example :
    (render_matrix small_matrix
      ≡ concat (
          join "\n" (
            concat ("Configuration comparison: " ∷ small_matrix.task_set ∷ [])
            ∷ (mode_lines small_matrix.mode ++ (table small_matrix ++ matrix_note ∷ [])))
          ∷ "\n"
          ∷ []))
    × (length (table small_matrix) ≡ length small_matrix.rows + 1)
    × All (λ line. count line ≡ table_width small_matrix) (table small_matrix)
unfolding checked_comparison
render_matrix-aligned_example = render_matrix-aligned small_matrix refl

abbrev plain_floats : Floats
plain_floats = record {
  fixed = λ n x. "0.5";
  signed_fixed6 = λ x. "+0.500000";
  percent = λ x. "50%";
  rounded_difference = λ x y. x;
}

abbrev side : String → ComparisonSide
side name = record {
  architecture = name;
  outcome = "completed";
  termination_reason = none;
  monetary_cost_usd = 0;
  elapsed_seconds = 0;
  worker_invocations = pos 3;
  review_iterations = pos 0;
  accepted_findings = pos 0;
  patch_produced = true;
}

abbrev small_report : ComparisonReport
small_report = record { task_id = "t1"; single = side "single-worker"; multi = side "multi-worker" }

matrix_from_comparison_report_lem_example :
    (m : ComparisonMatrix) × (matrix_from_comparison_report plain_floats small_report ≡ ok m)
    × (m.mode ≡ none)
    × (m.config_ids ≡ "single-worker" ∷ "multi-worker" ∷ [])
    × (map (λ row. row.values) m.rows
        ≡ map (λ d. d.single_value ∷ d.multi_value ∷ []) (report_rows plain_floats small_report))
    × All (λ line. count line ≡ table_width m) (table m)
matrix_from_comparison_report_lem_example =
    matrix_from_comparison_report_lem plain_floats small_report

abbrev run : RunRecord
run = record {
  task_id = "t1";
  config_id = "c1";
  baseline = "D";
  repetition = pos 1;
  mode = "scripted";
  status = "failed";
  graded_pass = none;
  failure_class = some "implementation failure";
  grader_id = "g";
  grader_version = "v";
  cost_usd = 0;
  duration_seconds = 0;
  tool_calls = pos 2;
  patch_sha256 = none;
  trace_ref = "t1__c1__r1.jsonl";
}

abbrev load_run : String → Option Json
load_run t = some (obj (records_payload (run ∷ [])))

read_run_records-write_run_records_example :
    (read_run_records strict load_run "runs.json"
        (write_run_records (λ d. "{}") (run ∷ []) "runs.json" (("runs.json", "old") ∷ []))
      ≡ ok (run ∷ []))
    × (read_run_records strict load_run "other.json"
          (write_run_records (λ d. "{}") (run ∷ []) "runs.json" (("runs.json", "old") ∷ []))
        ≡ read_run_records strict load_run "other.json" (("runs.json", "old") ∷ []))
unfolding checked_run contains
read_run_records-write_run_records_example =
    read_run_records-write_run_records strict (λ d. "{}") load_run "runs.json"
      (("runs.json", "old") ∷ []) (run ∷ []) (refl, tt) refl "other.json" other_path
  where
    other_path : ◌≢◌ {A = String} "runs.json" "other.json"
    other_path = ground (arith, eq_iff "runs.json" "other.json")

-- a world that lists what was done, the last first
abbrev World : Type 0
World = List String

abbrev worktree : Sandbox
worktree = record {
  target_root = "/target";
  worktree = "/tmp/run-1";
  branch = "anse/run-1";
  base_revision = "r0";
}

-- a runtime whose write loop raises
abbrev failing : Runtime World (Unit {0}) (Unit {0}) (List HarnessTool)
failing = record {
  create = λ root run_id w. (ok worktree, "created" ∷ w);
  destroy = λ sandbox w. (ok tt, "destroyed" ∷ w);
  empty_registry = [];
  register = λ sandbox tool tools w. (ok (tools ++ tool ∷ []), w);
  open_trace = λ path w. (ok tt, "opened" ∷ w);
  close_trace = λ tracer w. (ok tt, "closed" ∷ w);
  format = λ template description. ok description;
  adapter_factory = λ request w. (ok tt, w);
  run_write_task = λ run w. (err runtime_error, "ran" ∷ w);
}

abbrev small_request : AttemptRequest
small_request = record {
  task = record {
    task_id = "t1";
    description = "Fix it.";
    grader_id = "g";
    validation_commands = ("go" ∷ "test" ∷ []) ∷ [];
  };
  configuration = record {
    config_id = "c1";
    baseline = "D";
    description = "default";
    prompt_template = "{description}";
  };
  repetition = pos 1;
  target_root = "/target";
  trace_path = "t1__c1__r1.jsonl";
  run_id = "run-1";
  workflow_id = "wf-m08-eval";
}

execute-cleaned_example :
    ((x : Error) × (w1 : World) × (failing.create "/target" "run-1" [] ≡ (err x, w1))
      × (execute World failing (pos 8) 0 small_request [] ≡ (err x, w1)))
    ⊎ ((sandbox : Sandbox) × (w1 : World) × (failing.create "/target" "run-1" [] ≡ (ok sandbox, w1))
        × ((earlier : World) × ((execute World failing (pos 8) 0 small_request []).1
              ≡ "destroyed" ∷ earlier)))
execute-cleaned_example =
    execute-cleaned World failing (pos 8) 0 small_request
      (λ sandbox w. (earlier : World) × (w ≡ "destroyed" ∷ earlier)) (λ sandbox w. (w, refl)) []
