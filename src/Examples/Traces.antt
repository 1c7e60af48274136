-- ===== src/Examples/Traces.antt =====
-- Traces at concrete events.
use ai_native_sweng.Prelude.{String, true, [], ◌∷◌, refl, map}
use ai_native_sweng.Json.Value.{Json, null, str, dict, object}
use ai_native_sweng.Tracing.Event.{TraceEvent}
use ai_native_sweng.Tracing.Redaction.{redact_event, redact_keys, redact_value, redacted, holds}
use ai_native_sweng.Tracing.Redaction.Laws.{IsRedactedDict, redact_event-IsRedacted}
use ai_native_sweng.Tracing.Recorder.{Recorder, Call}
use ai_native_sweng.Tracing.Recorder.Numbering.{emit_all, emit_all-Distinct, line_id, Distinct}

abbrev pub secret_event : Json → TraceEvent
secret_event token = record {
  run_id = "run-1";
  workflow_id = "wf-1";
  component = "integration.mcp";
  event_type = "tool_requested";
  status = "requested";
  payload = dict (("server", str "ops") ∷ ("auth", object (("token", token) ∷ [])) ∷ []);
  timestamp = "2026-01-01T00:00:00Z";
  event_id = "int-0001";
  parent_event_id = null;
  sensitivity = "sensitive";
  sensitive_keys = str "token" ∷ [];
}

redact_event-IsRedacted_example : IsRedactedDict (str "token" ∷ []) (secret_event redacted).payload
unfolding redact_event redact_keys redact_value holds
redact_event-IsRedacted_example =
    redact_event-IsRedacted (secret_event (str "hunter2")) (secret_event redacted) refl

abbrev call : String → Call
call t = record {
  event_type = t;
  component = "integration.mcp";
  payload = dict [];
  status = "ok";
  parent = null;
  sensitive_keys = [];
}

abbrev pub recorder : Recorder
recorder = record {
  recording = true;
  run_id = "run-1";
  workflow_id = "wf-1";
  prefix = "int";
  seq = 0;
  clock = λ n. "2026-01-01T00:00:00Z";
  lines = [];
}

-- the second call is of an event type that does not exist
emit_all-Distinct_example : Distinct (
    map line_id
      (emit_all (call "run_started" ∷ call "run_paused" ∷ call "run_failed" ∷ []) recorder).lines)
emit_all-Distinct_example =
    emit_all-Distinct (call "run_started" ∷ call "run_paused" ∷ call "run_failed" ∷ []) recorder
      refl
