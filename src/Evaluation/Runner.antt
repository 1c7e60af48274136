-- ===== src/Evaluation/Runner.antt =====
-- src/anse_harness/evaluation/runner.py: the run matrix and the run records.
pub mod RoundTrip
pub mod Records
pub mod Executor
use ai_native_sweng.Prelude.{
  zero, suc, String, Bool, true, false, Option, List, [], ◌∷◌, map, Result, ok, contains, ◌>>=◌,
  ◌>>◌, guard, traverse, ◌&&◌, nonempty,
}
use ai_native_sweng.Json.Value.{
  ℤ, pos, negsuc, Float, bool, int, float, str, obj, Dict, dict, array, strings, optional,
}
use ai_native_sweng.Json.Convert.{
  Builtins, index, get_or, iterate, truthy, as_str, as_int, as_float, as_strings, optional_of,
}
use ai_native_sweng.Prelude.{evaluation_error}
use ai_native_sweng.Json.Convert.{subscripted}

pub record EvalTask : Type 0 where
  pub task_id : String
  pub description : String
  pub grader_id : String
  pub validation_commands : List (List String)

pub record EvalConfiguration : Type 0 where
  pub config_id : String
  pub baseline : String
  pub description : String
  pub prompt_template : String

pub record EvalMatrix : Type 0 where
  pub matrix_id : String
  pub mode : String
  pub tasks : List EvalTask
  pub configurations : List EvalConfiguration
  pub repetitions : ℤ

pub record RunRecord : Type 0 where
  pub task_id : String
  pub config_id : String
  pub baseline : String
  pub repetition : ℤ
  pub mode : String
  pub status : String
  pub graded_pass : Option Bool
  pub failure_class : Option String
  pub grader_id : String
  pub grader_version : String
  pub cost_usd : Float
  pub duration_seconds : Float
  pub tool_calls : ℤ
  pub patch_sha256 : Option String
  pub trace_ref : String

abbrev pub evaluation_modes : List String
evaluation_modes = "scripted" ∷ "replay" ∷ "live" ∷ []

abbrev pub run_statuses : List String
run_statuses = "completed" ∷ "failed" ∷ "infrastructure" ∷ []

-- n >= 1
abbrev pub positive : ℤ → Bool
positive (pos zero) = false
positive (pos (suc n)) = true
positive (negsuc n) = false

-- EvalMatrix.__post_init__, as a constructor that may raise
unfoldable pub checked_matrix : EvalMatrix → Result EvalMatrix
unfolding contains
checked_matrix m = do
  guard (contains evaluation_modes m.mode) evaluation_error
  guard (positive m.repetitions) evaluation_error
  guard (nonempty m.tasks && nonempty m.configurations) evaluation_error
  ok m

-- RunRecord.__post_init__
unfoldable pub checked_run : RunRecord → Result RunRecord
unfolding contains
checked_run r = do
  guard (contains evaluation_modes r.mode) evaluation_error
  guard (contains run_statuses r.status) evaluation_error
  ok r

-- EvalTask.to_payload
unfoldable pub task_payload : EvalTask → Dict
task_payload r = dict (
    ("task_id", str r.task_id)
    ∷ ("description", str r.description)
    ∷ ("grader_id", str r.grader_id)
    ∷ ("validation_commands", array (map strings r.validation_commands))
    ∷ [])

-- EvalConfiguration.to_payload
unfoldable pub configuration_payload : EvalConfiguration → Dict
configuration_payload r = dict (
    ("config_id", str r.config_id)
    ∷ ("baseline", str r.baseline)
    ∷ ("description", str r.description)
    ∷ ("prompt_template", str r.prompt_template)
    ∷ [])

-- EvalMatrix.to_payload
unfoldable pub matrix_payload : EvalMatrix → Dict
unfolding configuration_payload task_payload
matrix_payload r = dict (
    ("matrix_id", str r.matrix_id)
    ∷ ("mode", str r.mode)
    ∷ ("tasks", array (map (λ x. obj (task_payload x)) r.tasks))
    ∷ ("configurations", array (map (λ x. obj (configuration_payload x)) r.configurations))
    ∷ ("repetitions", int r.repetitions)
    ∷ [])

-- RunRecord.to_payload
unfoldable pub run_payload : RunRecord → Dict
run_payload r = dict (
    ("task_id", str r.task_id)
    ∷ ("config_id", str r.config_id)
    ∷ ("baseline", str r.baseline)
    ∷ ("repetition", int r.repetition)
    ∷ ("mode", str r.mode)
    ∷ ("status", str r.status)
    ∷ ("graded_pass", optional bool r.graded_pass)
    ∷ ("failure_class", optional str r.failure_class)
    ∷ ("grader_id", str r.grader_id)
    ∷ ("grader_version", str r.grader_version)
    ∷ ("cost_usd", float r.cost_usd)
    ∷ ("duration_seconds", float r.duration_seconds)
    ∷ ("tool_calls", int r.tool_calls)
    ∷ ("patch_sha256", optional str r.patch_sha256)
    ∷ ("trace_ref", str r.trace_ref)
    ∷ [])

module _ (py : Builtins) where
  -- EvalTask.from_payload
  unfoldable pub eval_task : Dict → Result EvalTask
  eval_task d = do
    task_id_raw ← index d "task_id"
    description_raw ← index d "description"
    grader_id_raw ← index d "grader_id"
    commands ← iterate (get_or d "validation_commands" (array []))
    validation_commands ← traverse (as_strings py) commands
    ok (record {
      task_id = as_str py task_id_raw;
      description = as_str py description_raw;
      grader_id = as_str py grader_id_raw;
      validation_commands = validation_commands;
    })

  -- EvalConfiguration.from_payload
  unfoldable pub eval_configuration : Dict → Result EvalConfiguration
  eval_configuration d = do
    config_id_raw ← index d "config_id"
    baseline_raw ← index d "baseline"
    description_raw ← index d "description"
    ok (record {
      config_id = as_str py config_id_raw;
      baseline = as_str py baseline_raw;
      description = as_str py description_raw;
      prompt_template = as_str py (get_or d "prompt_template" (str "{description}"));
    })

  -- EvalMatrix.from_payload
  unfoldable pub eval_matrix : Dict → Result EvalMatrix
  unfolding eval_configuration eval_task
  eval_matrix d = do
    matrix_id_raw ← index d "matrix_id"
    mode_raw ← index d "mode"
    tasks_raw ← index d "tasks"
    tasks_items ← iterate tasks_raw
    tasks ← traverse (λ item. subscripted item >>= eval_task) tasks_items
    configurations_raw ← index d "configurations"
    configurations_items ← iterate configurations_raw
    configurations ← traverse (λ item. subscripted item >>= eval_configuration) configurations_items
    repetitions_raw ← index d "repetitions"
    repetitions ← as_int py repetitions_raw
    checked_matrix (record {
      matrix_id = as_str py matrix_id_raw;
      mode = as_str py mode_raw;
      tasks = tasks;
      configurations = configurations;
      repetitions = repetitions;
    })

  -- RunRecord.from_payload
  unfoldable pub run_record : Dict → Result RunRecord
  run_record d = do
    task_id_raw ← index d "task_id"
    config_id_raw ← index d "config_id"
    baseline_raw ← index d "baseline"
    repetition_raw ← index d "repetition"
    repetition ← as_int py repetition_raw
    mode_raw ← index d "mode"
    status_raw ← index d "status"
    graded_pass_raw ← index d "graded_pass"
    graded_pass ← optional_of (λ v. ok (truthy v)) graded_pass_raw
    failure_class_raw ← index d "failure_class"
    failure_class ← optional_of (λ v. ok (as_str py v)) failure_class_raw
    grader_id_raw ← index d "grader_id"
    grader_version_raw ← index d "grader_version"
    cost_usd_raw ← index d "cost_usd"
    cost_usd ← as_float py cost_usd_raw
    duration_seconds_raw ← index d "duration_seconds"
    duration_seconds ← as_float py duration_seconds_raw
    tool_calls_raw ← index d "tool_calls"
    tool_calls ← as_int py tool_calls_raw
    patch_sha256_raw ← index d "patch_sha256"
    patch_sha256 ← optional_of (λ v. ok (as_str py v)) patch_sha256_raw
    trace_ref_raw ← index d "trace_ref"
    checked_run (record {
      task_id = as_str py task_id_raw;
      config_id = as_str py config_id_raw;
      baseline = as_str py baseline_raw;
      repetition = repetition;
      mode = as_str py mode_raw;
      status = as_str py status_raw;
      graded_pass = graded_pass;
      failure_class = failure_class;
      grader_id = as_str py grader_id_raw;
      grader_version = as_str py grader_version_raw;
      cost_usd = cost_usd;
      duration_seconds = duration_seconds;
      tool_calls = tool_calls;
      patch_sha256 = patch_sha256;
      trace_ref = as_str py trace_ref_raw;
    })
