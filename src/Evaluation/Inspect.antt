-- ===== src/Evaluation/Inspect.antt =====
-- src/anse_harness/evaluation/inspect.py: the selection of events, the normalization of check
-- outputs and the record of an inspection. `re.sub`, of a pattern, a replacement and a text, is an
-- argument. `inspect_run` raises in the source.
use ai_native_sweng.Prelude.{
  ℕ, ◌+◌, String, Bool, true, Option, none, some, List, [], ◌∷◌, map, ◌&&◌, ◌==◌, if◌then◌else◌,
}
use ai_native_sweng.Json.Value.{
  ℤ, Float, Json, int, float, str, arr, obj, Items, nil, cons, Dict, end, field, dict, object,
  array, strings, optional, lookup,
}
use ai_native_sweng.Tracing.Event.{TraceEvent}

-- `wanted is None or value == wanted`
unfoldable pub matches : Option String → String → Bool
matches none value = true
matches (some wanted) value = value == wanted

unfoldable pub selected : Option String → Option String → Option String → TraceEvent → Bool
unfolding matches
selected event_type component run_id e =
    matches event_type e.event_type && matches component e.component && matches run_id e.run_id

-- filter_events
unfoldable pub filter_events :
    Option String → Option String → Option String → List TraceEvent → List TraceEvent
unfolding selected
filter_events event_type component run_id [] = []
filter_events event_type component run_id (e ∷ rest) =
    let others = filter_events event_type component run_id rest in
    if selected event_type component run_id e then e ∷ others else others

-- d[k] = v, for a key of the dict
unfoldable pub set_item : String → Json → Dict → Dict
set_item k v end = field k v end
set_item k v (field j w rest) =
    let later = set_item k v rest in if j == k then field j v rest else field j w later

-- TIMING_TEXT_RE
abbrev pub timing_text_re : String
timing_text_re = "\\d+\\.\\d+s"

-- TIMING_TEXT_TOKEN
abbrev pub timing_text_token : String
timing_text_token = "_TIME_s"

module _ (sub : String → String → String → String) where
  unfoldable pub normalize_timing_text : String → String
  normalize_timing_text text = sub timing_text_re timing_text_token text

  unfoldable pub with_output : Dict → Option Json → Dict
  unfolding set_item normalize_timing_text
  with_output check (some (str s)) = set_item "output" (str (normalize_timing_text s)) check
  with_output check _ = check

  unfoldable pub normalize_check : Json → Json
  unfolding with_output lookup
  normalize_check (obj check) = obj (with_output check (lookup "output" check))
  normalize_check check = check

  unfoldable pub normalize_checks : Items → Items
  unfolding normalize_check
  normalize_checks nil = nil
  normalize_checks (cons check rest) = cons (normalize_check check) (normalize_checks rest)

  unfoldable pub with_checks : Dict → Option Json → Dict
  unfolding set_item normalize_checks
  with_checks payload (some (arr checks)) =
      set_item "checks" (arr (normalize_checks checks)) payload
  with_checks payload _ = payload

  -- normalize_check_payload
  unfoldable pub normalize_check_payload : Dict → Dict
  unfolding with_checks lookup
  normalize_check_payload payload = with_checks payload (lookup "checks" payload)

pub record RunInspection : Type 0 where
  pub files : List (String × ℤ)
  pub event_count : ℤ
  pub context_packets : ℤ
  pub workers : List (String × String)
  pub tool_counts : List (String × ℤ)
  pub artifact_ids : List String
  pub transitions : List (Option String × Option String)
  pub termination : Option String
  pub per_call_cost_usd : Float
  pub per_invocation_cost_usd : Float

-- RunInspection.six_questions
unfoldable pub six_questions : RunInspection → Dict
six_questions r = dict (
    ("which_context", int r.context_packets)
    ∷ ("which_worker", array (map (λ (a, b). strings (a ∷ b ∷ [])) r.workers))
    ∷ ("which_tools", array (map (λ (a, n). array (str a ∷ int n ∷ [])) r.tool_counts))
    ∷ (
      "where_result_changed",
      object (
          ("artifacts", strings r.artifact_ids)
          ∷ (
            "transitions",
            array (map (λ (a, b). array (optional str a ∷ optional str b ∷ [])) r.transitions),
          )
          ∷ []),
    )
    ∷ ("why_terminated", optional str r.termination)
    ∷ ("what_it_cost_usd", float r.per_call_cost_usd)
    ∷ [])

-- trace_tool_calls of evaluation/metrics.py
unfoldable pub trace_tool_calls : List TraceEvent → ℕ
trace_tool_calls [] = 0
trace_tool_calls (e ∷ rest) =
    (if e.event_type == "tool_requested" then 1 else 0) + trace_tool_calls rest
