-- ===== src/Examples/Conversations.antt =====
-- Conversations with a model and an evaluation matrix, at concrete values.
use ai_native_sweng.Prelude.{[], ◌∷◌, ◌≡◌, refl, ok}
use ai_native_sweng.Json.Value.{pos, null, str, dict}
use ai_native_sweng.Models.Types.{Message, ModelResponse, messages_to_payload}
use ai_native_sweng.Prelude.{List, Bool, eqb, length, err, replay_exhausted_error}
use ai_native_sweng.Json.Value.{Json}
use ai_native_sweng.Models.Replay.{ReplayAdapter, replay_adapter}
use ai_native_sweng.Models.Replay.Pairing.{Exchange, trace, HaveDistinctIds}
use ai_native_sweng.Models.Replay.Conformance.{replay_adapter-trace}
use ai_native_sweng.Models.Calls.{outcomes}
use ai_native_sweng.Models.Replay.{complete}
use ai_native_sweng.Evaluation.Runner.{EvalMatrix}
use ai_native_sweng.Examples.Boundary.{strict}

abbrev pub response : ModelResponse
response = record {
  text = "I read the file";
  tool_calls =
      record { id = "c1"; name = "file.read"; arguments = dict (("path", str "a.py") ∷ []) } ∷ [];
  structured_output = null;
  usage = record { input_tokens = pos 10; output_tokens = pos 5 };
  stop_reason = "tool_use";
}

abbrev pub question : Message
question = record { role = "user"; content = "Fix it"; tool_call_id = null; tool_calls = [] }

abbrev matrix : EvalMatrix
matrix = record {
  matrix_id = "m-1";
  mode = "replay";
  tasks =
      record {
        task_id = "task-1";
        description = "Fix the parser";
        grader_id = "tests";
        validation_commands = ("pytest" ∷ "-q" ∷ []) ∷ [];
      }
      ∷ [];
  configurations =
      record {
        config_id = "c-1";
        baseline = "single";
        description = "one worker";
        prompt_template = "{task}";
      }
      ∷ [];
  repetitions = pos 3;
}

abbrev pub exchange : Exchange
exchange = record {
  id = "evt-0001";
  reply_id = "evt-0002";
  request = record {
    messages = question ∷ [];
    tools = [];
    response_schema = null;
    max_tokens = pos 4096;
    timeout_seconds = 0;
  };
  response = response;
  frame = record {
    run_id = "run-1";
    workflow_id = "wf-1";
    component = "model";
    event_type = "model_requested";
    status = "ok";
    payload = dict [];
    timestamp = "2026-01-01T00:00:00Z";
    event_id = "evt-0001";
    parent_event_id = null;
    sensitivity = "public";
    sensitive_keys = [];
  };
}

-- a comparison that looks at the number of messages only
abbrev pub as_long : List Json → List Json → Bool
as_long xs ys = eqb (length xs) (length ys)

replay_adapter-trace_example :
    (a : ReplayAdapter) × (replay_adapter strict (trace (exchange ∷ [])) ≡ ok a)
    × (outcomes (complete as_long) (exchange.request ∷ exchange.request ∷ []) a
        ≡ ok response ∷ err replay_exhausted_error ∷ [])
unfolding HaveDistinctIds messages_to_payload
replay_adapter-trace_example =
    replay_adapter-trace as_long strict (exchange ∷ []) exchange.request (tt, tt) (refl, tt)
