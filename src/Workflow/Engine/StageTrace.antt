-- ===== src/Workflow/Engine/StageTrace.antt =====
-- src/anse_harness/workflows/engine.py: `StageTraceWriter`, the view of a shared trace file that
-- puts the events of a stage into a name space of their own.
pub mod Names
pub mod Lookup
pub mod Pairing
pub mod Distinct
use ai_native_sweng.Prelude.{String, [], ◌∷◌, Result, ok, err, concat}
use ai_native_sweng.Json.Value.{Json, null, str}
use ai_native_sweng.Json.Convert.{Builtins, as_str}
use ai_native_sweng.Tracing.Event.{TraceEvent, checked_event}
use ai_native_sweng.Tracing.Recorder.{Action, write}

-- f"{self._run_prefix}:{id}"
unfoldable pub stage_id : String → String → String
unfolding concat
stage_id prefix id = concat (prefix ∷ ":" ∷ id ∷ [])

-- the event is written if `replace`, which constructs it anew, did not raise
unfoldable pub forwarded : Result TraceEvent → Action (Unit {0})
unfolding write
forwarded (ok e) r = write e r
forwarded (err x) r = (err x, r)

module _ (py : Builtins) (prefix : String) where
  -- None if parent is None else f"{self._run_prefix}:{parent}"
  unfoldable pub stage_parent : Json → Json
  unfolding stage_id
  stage_parent null = null
  stage_parent parent = str (stage_id prefix (as_str py parent))

  -- the event that the view hands on
  unfoldable pub staged : TraceEvent → TraceEvent
  unfolding stage_parent
  staged e = record e {
    event_id = stage_id prefix e.event_id;
    parent_event_id = stage_parent e.parent_event_id;
  }

  -- StageTraceWriter.write
  unfoldable pub stage_write : TraceEvent → Action (Unit {0})
  unfolding staged forwarded
  stage_write e = forwarded (checked_event (staged e))
