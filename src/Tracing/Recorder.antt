-- ===== src/Tracing/Recorder.antt =====
-- The recorders, which number the events of a run and hand them to the trace writer:
-- src/anse_harness/integrations/contracts.py (`IntegrationRecorder`), workflows/engine.py and
-- workflows/orchestrator.py (`_Recorder`), reliability/controller.py (`_Recorder`), and the writer's
-- `write` of tracing/jsonl.py. The trace file is the list of the dicts that it holds, a line each;
-- the clock, which `TraceEvent` reads, is a function of the number of the event.
pub mod Numbering
pub mod Success
use ai_native_sweng.Prelude.{
  ℕ, suc, String, Bool, List, [], ◌∷◌, ◌++◌, Result, ok, err, if◌then◌else◌, concat, decimal4,
}
use ai_native_sweng.Json.Value.{Json, Dict}
use ai_native_sweng.Tracing.Event.{TraceEvent, checked_event, to_dict}
use ai_native_sweng.Tracing.Redaction.{redact_event}

pub record Recorder : Type 0 where
  -- self._writer is not None
  pub recording : Bool
  pub run_id : String
  pub workflow_id : String
  pub prefix : String
  pub seq : ℕ
  pub clock : ℕ → String
  -- the lines of the trace file
  pub lines : List Dict

-- A call that may raise and that changes the recorder, on the raising path too.
abbrev pub Action : Type 0 → Type 0
Action A = Recorder → Result A × Recorder

-- the arguments of one call of `emit`
pub record Call : Type 0 where
  pub event_type : String
  pub component : String
  pub payload : Dict
  pub status : String
  pub parent : Json
  pub sensitive_keys : List Json

-- f"{self._prefix}-{self._seq:04d}"
unfoldable pub event_id : String → ℕ → String
unfolding concat decimal4
event_id prefix seq = concat (prefix ∷ "-" ∷ decimal4 seq ∷ [])

unfoldable pub event_of : Recorder → Call → TraceEvent
event_of r c = record {
  run_id = r.run_id;
  workflow_id = r.workflow_id;
  component = c.component;
  event_type = c.event_type;
  status = c.status;
  payload = c.payload;
  timestamp = r.clock r.seq;
  event_id = event_id r.prefix r.seq;
  parent_event_id = c.parent;
  sensitivity = "public";
  sensitive_keys = c.sensitive_keys;
}

-- the line of a redacted event, if redaction did not raise
unfoldable pub append_line : Result TraceEvent → Action (Unit {0})
append_line (ok e) r = (ok tt, record r { lines = r.lines ++ to_dict e ∷ [] })
append_line (err x) r = (err x, r)

-- TraceWriter.write
unfoldable pub write : TraceEvent → Action (Unit {0})
unfolding append_line
write e = append_line (redact_event e)

-- the id is returned if the writer did not raise
unfoldable pub written : String → Result (Unit {0}) × Recorder → Result String × Recorder
written id (ok _, r) = (ok id, r)
written id (err x, r) = (err x, r)

-- the event is written if its constructor did not raise
unfoldable pub constructed : String → Result TraceEvent → Action String
unfolding write written
constructed id (ok e) r = written id (write e r)
constructed id (err x) r = (err x, r)

-- IntegrationRecorder.emit
unfoldable pub emit : Call → Action String
unfolding event_of constructed
emit c r =
    let id = event_id r.prefix r.seq in
    let next = record r { seq = suc r.seq } in
    if r.recording then constructed id (checked_event (event_of r c)) next else (ok id, next)
