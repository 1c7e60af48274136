-- ===== src/Models/Live/OpenAi.antt =====
-- src/anse_harness/models/live_openai.py: `_to_wire` and OpenAIAdapter.complete.
-- `client.chat.completions.create`, `json.loads` and `json.dumps` are arguments.
pub mod Failures
use ai_native_sweng.Prelude.{
  String, Option, none, some, List, [], ◌∷◌, ◌++◌, ◌&&◌, ◌==◌, nonempty, map, if◌then◌else◌, Result,
  ok, err, index_error, ◌>>=◌, traverse,
}
use ai_native_sweng.Json.Value.{ℤ, pos, Json, null, int, float, str, obj, Dict, dict, object, array}
use ai_native_sweng.Models.Types.{Message, ToolCall, ToolSpec, Usage, ModelRequest, ModelResponse}
use ai_native_sweng.Models.Errors.{Sent, normalized}
use ai_native_sweng.Models.Live.{is_none, or_else, structured_of}

-- _STOP_REASONS.get(reason, "end_turn")
unfoldable pub stop_reason_of : String → String
stop_reason_of reason =
    if reason == "stop"
    then "end_turn"
    else if reason == "length"
    then "max_tokens"
    else if reason == "tool_calls"
    then "tool_use"
    else if reason == "content_filter"
    then "refusal"
    else "end_turn"

module _ (dumps : Dict → String) where
  unfoldable pub wire_call : ToolCall → Json
  wire_call c = object (
      ("id", str c.id)
      ∷ ("type", str "function")
      ∷ ("function", object (("name", str c.name) ∷ ("arguments", str (dumps c.arguments)) ∷ []))
      ∷ [])

  unfoldable pub wire_message : Message → Json
  unfolding wire_call
  wire_message m =
      if m.role == "tool"
      then object (
          ("role", str "tool") ∷ ("tool_call_id", m.tool_call_id) ∷ ("content", str m.content) ∷ [])
      else if m.role == "assistant" && nonempty m.tool_calls
      then object (
          ("role", str "assistant")
          ∷ ("content", (if m.content == "" then null else str m.content))
          ∷ ("tool_calls", array (map wire_call m.tool_calls))
          ∷ [])
      else object (("role", str m.role) ∷ ("content", str m.content) ∷ [])

  -- _to_wire
  unfoldable pub to_wire : List Message → List Json
  unfolding wire_message
  to_wire ms = map wire_message ms

  unfoldable pub function_entry : ToolSpec → Json
  function_entry t = object (
      ("type", str "function")
      ∷ (
        "function",
        object (
            ("name", str t.name)
            ∷ ("description", str t.description)
            ∷ ("parameters", obj t.input_schema)
            ∷ []),
      )
      ∷ [])

  -- the keyword arguments of `create`
  unfoldable pub completion_arguments : String → ModelRequest → Dict
  unfolding to_wire function_entry
  completion_arguments model request = dict (
      (("model", str model)
        ∷ ("messages", array (to_wire request.messages))
        ∷ ("max_completion_tokens", int request.max_tokens)
        ∷ ("timeout", float request.timeout_seconds)
        ∷ [])
      ++ (if nonempty request.tools
          then ("tools", array (map function_entry request.tools)) ∷ []
          else [])
      ++ (if is_none request.response_schema
          then []
          else (
            "response_format",
            object (
                ("type", str "json_schema")
                ∷ (
                  "json_schema",
                  object (("name", str "response") ∷ ("schema", request.response_schema) ∷ []),
                )
                ∷ []),
          )
            ∷ []))

-- a call in the answer, its arguments as a text
pub record FunctionCall : Type 0 where
  pub id : String
  pub name : String
  pub arguments : String

-- A `None` list of calls is read as an empty one.
pub record Choice : Type 0 where
  pub content : Option String
  pub tool_calls : List FunctionCall
  pub finish_reason : Option String

pub record CompletionUsage : Type 0 where
  pub prompt_tokens : ℤ
  pub completion_tokens : ℤ

pub record Completion : Type 0 where
  pub choices : List Choice
  pub usage : Option CompletionUsage

unfoldable pub usage_of : Option CompletionUsage → Usage
usage_of none = record { input_tokens = pos 0; output_tokens = pos 0 }
usage_of (some u) = record { input_tokens = u.prompt_tokens; output_tokens = u.completion_tokens }

-- choices[0]
unfoldable pub first_choice : List Choice → Result Choice
first_choice [] = err index_error
first_choice (c ∷ rest) = ok c

-- A parsed text of arguments; the API's are objects, other values are passed on as they are.
module _ (loads : String → Result Json) (as_arguments : Json → Dict) where
  unfoldable pub read_call : FunctionCall → Result ToolCall
  read_call c = do
    arguments ← loads c.arguments
    ok (record { id = c.id; name = c.name; arguments = as_arguments arguments })

  -- what `complete` makes of an answer
  unfoldable pub read_completion : ModelRequest → Completion → Result ModelResponse
  unfolding traverse read_call structured_of usage_of first_choice
  read_completion request response = do
    choice ← first_choice response.choices
    tool_calls ← traverse read_call choice.tool_calls
    structured ← structured_of loads request.response_schema (or_else choice.content "")
    ok (record {
      text = or_else choice.content "";
      tool_calls = tool_calls;
      structured_output = structured;
      usage = usage_of response.usage;
      stop_reason =
          if nonempty tool_calls
          then "tool_use"
          else stop_reason_of (or_else choice.finish_reason "");
    })

  unfoldable pub openai_complete :
      (dumps : Dict → String) (create : Dict → Sent Completion)
      → String
      → ModelRequest
      → Result ModelResponse
  unfolding normalized read_completion
  openai_complete dumps create model request = do
    response ← normalized (create (completion_arguments dumps model request))
    read_completion request response
