-- ===== src/Evaluation/Runner/RoundTrip.antt =====
-- The matrix and the run records are read back as they were written.
use ai_native_sweng.Prelude.{◌≡◌, refl, ok, ◌>>=◌, traverse-map, arith, ◌∙◌}
use ai_native_sweng.Json.Value.{obj, Dict, items_list-items, strings}
use ai_native_sweng.Json.Convert.{
  Builtins, as_strings, as_strings-strings, optional_bool, optional_str, reading,
}
use ai_native_sweng.Json.Convert.{subscripted}
use ai_native_sweng.Evaluation.Runner.{
  EvalTask, EvalConfiguration, EvalMatrix, RunRecord, checked_matrix, checked_run, task_payload,
  eval_task, configuration_payload, eval_configuration, matrix_payload, eval_matrix, run_payload,
  run_record,
}

module _ (py : Builtins) where
  -- Reading what was written gives it back.
  pub eval_task-task_payload : (r : EvalTask) → eval_task py (task_payload r) ≡ ok r
  unfolding eval_task task_payload reading
  eval_task-task_payload r =
      simp (items_list-items, traverse-map (as_strings py) strings (as_strings-strings py))

  eval_configuration-configuration_payload :
      (c : EvalConfiguration) → eval_configuration py (configuration_payload c) ≡ ok c
  unfolding eval_configuration configuration_payload reading
  eval_configuration-configuration_payload c = refl

  read_task : (t : EvalTask) → (subscripted (obj (task_payload t)) >>= eval_task py) ≡ ok t
  unfolding subscripted
  read_task t = eval_task-task_payload t

  read_configuration :
      (c : EvalConfiguration)
      → (subscripted (obj (configuration_payload c)) >>= eval_configuration py) ≡ ok c
  unfolding subscripted
  read_configuration c = eval_configuration-configuration_payload c

  pub reading_back : (m : EvalMatrix) → eval_matrix py (matrix_payload m) ≡ checked_matrix m
  unfolding eval_matrix matrix_payload reading
  reading_back m = simp (
    items_list-items,
    traverse-map (λ item. subscripted item >>= eval_task py) (λ t. obj (task_payload t)) read_task,
    traverse-map (λ item. subscripted item >>= eval_configuration py)
        (λ c. obj (configuration_payload c)) read_configuration,
  )

  checked_matrix_idem : (m m' : EvalMatrix) → checked_matrix m ≡ ok m' → checked_matrix m' ≡ ok m'
  unfolding checked_matrix
  checked_matrix_idem m m' h = ground arith

  module _ (d : Dict) (m : EvalMatrix) (accepted : eval_matrix py d ≡ ok m) where
    checked-eval_matrix : checked_matrix m ≡ ok m
    unfolding eval_matrix
    checked-eval_matrix = grind (arith, checked_matrix_idem)

    -- Whatever dict the reader accepts, the payload of the matrix that it returns is read back as
    -- that same matrix.
    pub eval_matrix-matrix_payload : eval_matrix py (matrix_payload m) ≡ ok m
    eval_matrix-matrix_payload = reading_back m ∙ checked-eval_matrix

  pub run_reading_back : (r : RunRecord) → run_record py (run_payload r) ≡ checked_run r
  unfolding run_record run_payload reading
  run_reading_back r = simp (optional_bool, optional_str py)

  checked_run_idem : (r r' : RunRecord) → checked_run r ≡ ok r' → checked_run r' ≡ ok r'
  unfolding checked_run
  checked_run_idem r r' h = ground arith

  module _ (d : Dict) (r : RunRecord) (accepted : run_record py d ≡ ok r) where
    checked-run_record : checked_run r ≡ ok r
    unfolding run_record
    checked-run_record = grind (arith, checked_run_idem)

    -- Whatever dict the reader accepts, the payload of the run record that it returns is read back
    -- as that same record.
    pub run_record-run_payload : run_record py (run_payload r) ≡ ok r
    run_record-run_payload = run_reading_back r ∙ checked-run_record
