-- ===== src/Tracing/File.antt =====
-- src/anse_harness/tracing/jsonl.py: the text of a trace file and `read_trace`. `json.dumps` with
-- sorted keys and `json.loads` are arguments; `none` stands for a `JSONDecodeError`.
pub mod Lines
pub mod ReadBack
use ai_native_sweng.Prelude.{
  String, Option, some, none, List, [], ◌∷◌, map, ◌==◌, if◌then◌else◌, Result, ok, err, value_error,
  ◌>>=◌, concat, strip, file_lines,
}
use ai_native_sweng.Json.Value.{
  Json, null, bool, int, float, str, arr, obj, Items, nil, cons, Dict, end, field,
}
use ai_native_sweng.Json.Convert.{Builtins, subscripted}
use ai_native_sweng.Tracing.Event.{TraceEvent, from_dict}
use text.Mathlib.Text.{is_le}
use Prim.Native.String.{compare}

-- a field in front of the first one with a greater key
unfoldable pub insert_field : String → Json → Dict → Dict
insert_field k v end = field k v end
insert_field k v (field j w rest) =
    let later = insert_field k v rest in
    if is_le (compare k j) then field k v (field j w rest) else field j w later

-- What json.loads gives back for json.dumps(value, sort_keys=True): the dicts have their keys in
-- order, at every depth.
unfoldable mutual
  unfolding insert_field

  pub sorted_value : Json → Json
  sorted_value null = null
  sorted_value (bool b) = bool b
  sorted_value (int n) = int n
  sorted_value (float f) = float f
  sorted_value (str s) = str s
  sorted_value (arr xs) = arr (sorted_items xs)
  sorted_value (obj d) = obj (sorted_dict d)

  pub sorted_items : Items → Items
  sorted_items nil = nil
  sorted_items (cons x xs) = cons (sorted_value x) (sorted_items xs)

  pub sorted_dict : Dict → Dict
  sorted_dict end = end
  sorted_dict (field k v rest) = insert_field k (sorted_value v) (sorted_dict rest)

-- The event as it is read back: its dicts have their keys in order.
unfoldable pub sorted_event : TraceEvent → TraceEvent
unfolding sorted_value
sorted_event e = record e {
  payload = sorted_dict e.payload;
  parent_event_id = sorted_value e.parent_event_id;
  sensitive_keys = map sorted_value e.sensitive_keys;
}

module _ (dumps : Dict → String) where
  -- line + "\n", as TraceWriter.write puts it
  unfoldable pub line_of : Dict → String
  unfolding concat
  line_of d = concat (dumps d ∷ "\n" ∷ [])

  -- the text of a trace file that holds these dicts
  unfoldable pub trace_text : List Dict → String
  unfolding line_of
  trace_text ds = concat (map line_of ds)

module _ (py : Builtins) (loads : String → Option Json) where
  -- json.loads(stripped), where a failure is raised again as a `ValueError`
  unfoldable pub loaded : Option Json → Result Json
  loaded (some v) = ok v
  loaded none = err value_error

  -- the event of one line, if the line is not blank
  unfoldable pub line_event : String → Result (Option TraceEvent)
  unfolding loaded strip
  line_event stripped = if stripped == "" then ok none else do
    data' ← loaded (loads stripped)
    d ← subscripted data'
    e ← from_dict py d
    ok (some e)

  unfoldable pub appended : Option TraceEvent → List TraceEvent → List TraceEvent
  appended none events = events
  appended (some e) events = e ∷ events

  -- the loop over the lines of the file
  unfoldable pub read_lines : List String → Result (List TraceEvent)
  unfolding line_event appended
  read_lines [] = ok []
  read_lines (line ∷ rest) = do
    o ← line_event (strip line)
    events ← read_lines rest
    ok (appended o events)

  -- read_trace, on the text of the file
  unfoldable pub read_trace : String → Result (List TraceEvent)
  unfolding read_lines file_lines
  read_trace text = read_lines (file_lines text)
