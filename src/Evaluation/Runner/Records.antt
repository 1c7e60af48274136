-- ===== src/Evaluation/Runner/Records.antt =====
-- src/anse_harness/evaluation/runner.py: the artifact with the run records, and the names of a run.
-- The files are the texts at their paths; `json.dumps` and `json.loads` are arguments, with `none`
-- for a `JSONDecodeError`. The parent directories that a write makes are not modelled.
pub mod ReadBack
use ai_native_sweng.Prelude.{
  String, Option, none, some, List, [], ◌∷◌, map, Result, ok, err, json_decode_error,
  file_not_found_error, ◌>>=◌, traverse, concat, ◌==◌, if◌then◌else◌,
}
use ai_native_sweng.Json.Value.{ℤ, Json, obj, Dict, dict, array}
use ai_native_sweng.Json.Convert.{Builtins, subscripted, index, iterate, int_text}
use ai_native_sweng.Evaluation.Runner.{RunRecord, run_payload, run_record}

-- attempt_trace_filename
unfoldable pub attempt_trace_filename : String → String → ℤ → String
unfolding concat int_text
attempt_trace_filename task_id config_id repetition =
    concat (task_id ∷ "__" ∷ config_id ∷ "__r" ∷ int_text repetition ∷ ".jsonl" ∷ [])

-- eval_run_id
unfoldable pub eval_run_id : String → String → ℤ → String
unfolding concat int_text
eval_run_id task_id config_id repetition =
    concat ("run-eval-" ∷ task_id ∷ "-" ∷ config_id ∷ "-r" ∷ int_text repetition ∷ [])

abbrev pub eval_workflow_id : String
eval_workflow_id = "wf-m08-eval"

abbrev pub Files : Type 0
Files = List (String × String)

-- path.write_text(text)
unfoldable pub write_text : String → String → Files → Files
write_text path text [] = (path, text) ∷ []
write_text path text ((p, t) ∷ rest) =
    let later = write_text path text rest in if p == path then (p, text) ∷ rest else (p, t) ∷ later

-- path.read_text()
unfoldable pub read_text : String → Files → Result String
read_text path [] = err file_not_found_error
read_text path ((p, t) ∷ rest) = if p == path then ok t else read_text path rest

unfoldable pub records_payload : List RunRecord → Dict
unfolding run_payload
records_payload records = dict (("records", array (map (λ r. obj (run_payload r)) records)) ∷ [])

module _ (dumps : Dict → String) where
  unfoldable pub records_text : List RunRecord → String
  unfolding concat records_payload
  records_text records = concat (dumps (records_payload records) ∷ "\n" ∷ [])

  -- write_run_records
  unfoldable pub write_run_records : List RunRecord → String → Files → Files
  unfolding write_text records_text
  write_run_records records path = write_text path (records_text records)

-- json.loads(text)
unfoldable pub decoded : Option Json → Result Json
decoded (some v) = ok v
decoded none = err json_decode_error

module _ (py : Builtins) (loads : String → Option Json) where
  -- read_run_records
  unfoldable pub read_run_records : String → Files → Result (List RunRecord)
  unfolding read_text decoded run_record traverse
  read_run_records path files = do
    text ← read_text path files
    data' ← decoded (loads text)
    d ← subscripted data'
    entries ← index d "records"
    entries_items ← iterate entries
    traverse (λ entry. subscripted entry >>= run_record py) entries_items
