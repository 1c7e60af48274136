-- ===== src/Tracing/Event.antt =====
-- src/anse_harness/tracing/events.py: one trace event.
-- `sensitive_keys` is read by `tuple(...)` with no `str`, and `parent_event_id` unconverted.
pub mod RoundTrip
use ai_native_sweng.Prelude.{
  String, List, [], ◌∷◌, Result, ok, value_error, contains, ◌>>=◌, ◌>>◌, guard,
}
use ai_native_sweng.Json.Value.{Json, str, obj, Dict, dict, object, array}
use ai_native_sweng.Json.Convert.{Builtins, index, get, get_or, iterate, as_str, as_dict}

pub record TraceEvent : Type 0 where
  pub run_id : String
  pub workflow_id : String
  pub component : String
  pub event_type : String
  pub status : String
  pub payload : Dict
  pub timestamp : String
  pub event_id : String
  pub parent_event_id : Json
  pub sensitivity : String
  pub sensitive_keys : List Json

abbrev pub event_types : List String
event_types =
    "run_started" ∷ "run_completed" ∷ "run_failed" ∷ "model_requested" ∷ "model_responded"
    ∷ "model_failed" ∷ "context_packet_created" ∷ "tool_requested" ∷ "policy_evaluated"
    ∷ "approval_requested" ∷ "approval_resolved" ∷ "tool_completed" ∷ "tool_failed"
    ∷ "state_transitioned" ∷ "worker_started" ∷ "worker_completed" ∷ "worker_failed"
    ∷ "validation_started" ∷ "validation_completed" ∷ "checkpoint_created" ∷ "retry_scheduled"
    ∷ "escalation_created" ∷ "budget_updated" ∷ "budget_exhausted" ∷ "artifact_created" ∷ []

abbrev pub sensitivity_levels : List String
sensitivity_levels = "public" ∷ "sensitive" ∷ []

-- TraceEvent.__post_init__, as a constructor that may raise
unfoldable pub checked_event : TraceEvent → Result TraceEvent
checked_event e = do
  guard (contains event_types e.event_type) value_error
  guard (contains sensitivity_levels e.sensitivity) value_error
  ok e

-- TraceEvent.to_dict
unfoldable pub to_dict : TraceEvent → Dict
to_dict r = dict (
    ("timestamp", str r.timestamp)
    ∷ ("event_id", str r.event_id)
    ∷ ("run_id", str r.run_id)
    ∷ ("workflow_id", str r.workflow_id)
    ∷ ("component", str r.component)
    ∷ ("event_type", str r.event_type)
    ∷ ("status", str r.status)
    ∷ ("parent_event_id", r.parent_event_id)
    ∷ ("payload", obj r.payload)
    ∷ ("sensitivity", str r.sensitivity)
    ∷ ("sensitive_keys", array r.sensitive_keys)
    ∷ [])

module _ (py : Builtins) where
  -- TraceEvent.from_dict
  unfoldable pub from_dict : Dict → Result TraceEvent
  from_dict d = do
    run_id_raw ← index d "run_id"
    workflow_id_raw ← index d "workflow_id"
    component_raw ← index d "component"
    event_type_raw ← index d "event_type"
    status_raw ← index d "status"
    payload ← as_dict py (get_or d "payload" (object []))
    timestamp_raw ← index d "timestamp"
    event_id_raw ← index d "event_id"
    sensitive_keys ← iterate (get_or d "sensitive_keys" (array []))
    checked_event (record {
      run_id = as_str py run_id_raw;
      workflow_id = as_str py workflow_id_raw;
      component = as_str py component_raw;
      event_type = as_str py event_type_raw;
      status = as_str py status_raw;
      payload = payload;
      timestamp = as_str py timestamp_raw;
      event_id = as_str py event_id_raw;
      parent_event_id = get d "parent_event_id";
      sensitivity = as_str py (get_or d "sensitivity" (str "public"));
      sensitive_keys = sensitive_keys;
    })
