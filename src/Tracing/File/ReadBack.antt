-- ===== src/Tracing/File/ReadBack.antt =====
-- What a reader of a trace file sees after a write.
use ai_native_sweng.Prelude.{
  String, Option, some, none, List, [], ◌∷◌, ◌++◌, map, ◌≡◌, refl, sym, ap, ◌∙◌, Result, ok, err,
  strip, arith,
}
use mathlib.Core.List.{map-append}
use ai_native_sweng.Json.Value.{Json, obj, Dict, items, items_list}
use ai_native_sweng.Json.Convert.{Builtins, reading, subscripted}
use ai_native_sweng.Tracing.Event.{TraceEvent, checked_event, to_dict, from_dict}
use ai_native_sweng.Tracing.Redaction.{redact_event, redact_keys}
use ai_native_sweng.Tracing.Recorder.{Recorder, write, append_line}
use ai_native_sweng.Tracing.File.{
  sorted_dict, sorted_value, sorted_items, sorted_event, trace_text, line_of, line_event, appended,
  read_lines, read_trace, loaded,
}
use ai_native_sweng.Tracing.File.Lines.{
  IsObjectText, file_lines-trace_text, strip-line_of, dumps-nonempty,
}

items_list-sorted : (xs : List Json) → items_list (sorted_items (items xs)) ≡ map sorted_value xs
unfolding items_list sorted_items items
items_list-sorted [] = refl
items_list-sorted (x ∷ xs) = rw (items_list-sorted xs)

redact_event-checked :
    (e stored : TraceEvent)
    → checked_event e ≡ ok e
    → redact_event e ≡ ok stored
    → checked_event stored ≡ ok stored
unfolding redact_event redact_keys checked_event
redact_event-checked e stored h r = ground arith

module _ (py : Builtins) where
  sorted-from_dict :
      (e : TraceEvent)
      → checked_event e ≡ ok e
      → from_dict py (sorted_dict (to_dict e)) ≡ ok (sorted_event e)
  unfolding from_dict to_dict reading sorted_dict sorted_event checked_event
  sorted-from_dict e h = grind (arith, items_list-sorted)

  module _ (loads : String → Option Json) where
    read_lines-append :
        (lines : List String) (line : String) (old : List TraceEvent) (e : TraceEvent)
        → read_lines py loads lines ≡ ok old
        → line_event py loads (strip line) ≡ ok (some e)
        → read_lines py loads (lines ++ line ∷ []) ≡ ok (old ++ e ∷ [])
    unfolding read_lines appended
    read_lines-append [] line old e h k = ground (arith, h, k)
    read_lines-append (l ∷ lines) line old e h k =
        by_line (λ es q. read_lines-append lines line es e q k) (line_event py loads (strip l)) refl
          (read_lines py loads lines) refl
      where
        by_line :
            ((es : List TraceEvent)
              → read_lines py loads lines ≡ ok es
              → read_lines py loads (lines ++ line ∷ []) ≡ ok (es ++ e ∷ []))
            → (o : Result (Option TraceEvent)) → line_event py loads (strip l) ≡ o
            → (es : Result (List TraceEvent)) → read_lines py loads lines ≡ es
            → read_lines py loads (l ∷ (lines ++ line ∷ [])) ≡ ok (old ++ e ∷ [])
        by_line ih (ok none) p (ok es) q = ground (arith, ih es q)
        by_line ih (ok (some first)) p (ok es) q = ground (arith, ih es q)
        by_line ih (ok o) p (err x) q = ground arith
        by_line ih (err x) p es q = ground arith

    module _ (dumps : Dict → String) (dumped : (d : Dict) → IsObjectText (dumps d)) where
      read_trace-lines :
          (ds : List Dict)
          → read_trace py loads (trace_text dumps ds) ≡ read_lines py loads (map (line_of dumps) ds)
      unfolding read_trace
      read_trace-lines ds = ap (read_lines py loads) (file_lines-trace_text dumps dumped ds)

      line_event-dumps :
          (e : TraceEvent)
          → checked_event e ≡ ok e
          → loads (dumps (to_dict e)) ≡ some (obj (sorted_dict (to_dict e)))
          → line_event py loads (dumps (to_dict e)) ≡ ok (some (sorted_event e))
      unfolding line_event loaded subscripted
      line_event-dumps e h l =
          rw (dumps-nonempty dumps dumped (to_dict e), l) (rw (sorted-from_dict e h) refl)

      -- Where `json.loads` reads the text of the redacted event back, and the file was readable, a
      -- reader finds after the write what it found before, in the same order, and then the redacted
      -- event, whose dicts have their keys in order.
      pub read_trace-write :
          (r : Recorder) (e stored : TraceEvent) (old : List TraceEvent)
          → checked_event e ≡ ok e
          → redact_event e ≡ ok stored
          → loads (dumps (to_dict stored)) ≡ some (obj (sorted_dict (to_dict stored)))
          → read_trace py loads (trace_text dumps r.lines) ≡ ok old
          → read_trace py loads (trace_text dumps (write e r).1.lines)
            ≡ ok (old ++ sorted_event stored ∷ [])
      unfolding read_trace write append_line
      read_trace-write r e stored old h red l readable =
          ap (λ m. read_trace py loads (trace_text dumps (append_line m r).1.lines)) red
          ∙ (read_trace-lines (r.lines ++ to_dict stored ∷ [])
              ∙ (ap (read_lines py loads) (map-append (line_of dumps) r.lines (to_dict stored ∷ []))
                  ∙ read_lines-append (map (line_of dumps) r.lines) (line_of dumps (to_dict stored))
                      old (sorted_event stored) (sym (read_trace-lines r.lines) ∙ readable)
                      (ap (line_event py loads) (strip-line_of dumps dumped (to_dict stored))
                        ∙ line_event-dumps stored (redact_event-checked e stored h red) l)))
