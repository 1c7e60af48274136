-- ===== src/Tracing/Redaction.antt =====
-- src/anse_harness/tracing/jsonl.py: `_redact_value` and `redact_event`, which the writer applies
-- to each event before the line reaches the file.
pub mod Laws
use ai_native_sweng.Prelude.{
  String, Bool, false, List, [], ◌∷◌, ◌==◌, ◌||◌, if◌then◌else◌, Result, ok, err, type_error,
}
use ai_native_sweng.Json.Value.{
  Json, null, bool, int, float, str, arr, obj, Items, nil, cons, Dict, end, field,
}
use ai_native_sweng.Tracing.Event.{TraceEvent}

abbrev pub redacted : Json
redacted = str "[REDACTED]"

abbrev is_text : String → Json → Bool
is_text k (str s) = s == k
is_text k _ = false

-- `k in keys`, for a text `k`: a key that is no text equals none
unfoldable pub holds : List Json → String → Bool
holds [] k = false
holds (j ∷ js) k = is_text k j || holds js k

-- _redact_value, on a value, on the items of a list and on the items of a dict
unfoldable mutual
  pub redact_value : List Json → Json → Json
  redact_value keys null = null
  redact_value keys (bool b) = bool b
  redact_value keys (int n) = int n
  redact_value keys (float f) = float f
  redact_value keys (str s) = str s
  redact_value keys (arr xs) = arr (redact_items keys xs)
  redact_value keys (obj d) = obj (redact_dict keys d)

  pub redact_items : List Json → Items → Items
  redact_items keys nil = nil
  redact_items keys (cons x xs) = cons (redact_value keys x) (redact_items keys xs)

  pub redact_dict : List Json → Dict → Dict
  redact_dict keys end = end
  redact_dict keys (field k v rest) =
      field k (if holds keys k then redacted else redact_value keys v) (redact_dict keys rest)

-- frozenset(keys): a list or a dict has no hash
abbrev pub hashable : List Json → Result (Unit {0})
hashable [] = ok tt
hashable (arr xs ∷ js) = err type_error
hashable (obj d ∷ js) = err type_error
hashable (_ ∷ js) = hashable js

unfoldable pub redact_keys : List Json → TraceEvent → Result TraceEvent
redact_keys [] e = ok e
redact_keys (k ∷ ks) e = elim (hashable (k ∷ ks)) [
  | ok _ ↦ ok (record e { payload = redact_dict (k ∷ ks) e.payload })
  | err x ↦ err x
]

unfoldable pub redact_event : TraceEvent → Result TraceEvent
unfolding redact_keys
redact_event e = redact_keys e.sensitive_keys e
