-- ===== src/Models/Types.antt =====
-- src/anse_harness/models/types.py: messages, tool calls, requests, responses and their payloads.
-- `tool_call_id` and `structured_output` are read unconverted, so they are the values that they are.
pub mod RoundTrip
use ai_native_sweng.Prelude.{
  String, List, [], ◌∷◌, Result, ok, value_error, map, nonempty, not, ◌&&◌, ◌==◌, guard, ◌>>=◌,
  ◌>>◌, traverse,
}
use ai_native_sweng.Json.Value.{
  Float, ℤ, pos, Json, null, int, str, obj, Dict, field, end, dict, object, array, strings,
}
use ai_native_sweng.Json.Convert.{
  Builtins, index_any, get, get_or, get_any, get_or_any, iterate, as_str, as_int, as_dict,
}

pub record ToolCall : Type 0 where
  pub id : String
  pub name : String
  pub arguments : Dict

pub record Message : Type 0 where
  pub role : String
  pub content : String
  pub tool_call_id : Json
  pub tool_calls : List ToolCall

pub record ToolSpec : Type 0 where
  pub name : String
  pub description : String
  pub input_schema : Dict

pub record Usage : Type 0 where
  pub input_tokens : ℤ
  pub output_tokens : ℤ

pub record ModelRequest : Type 0 where
  pub messages : List Message
  pub tools : List ToolSpec
  -- a dict or `None`
  pub response_schema : Json
  pub max_tokens : ℤ
  pub timeout_seconds : Float

pub record ModelResponse : Type 0 where
  pub text : String
  pub tool_calls : List ToolCall
  pub structured_output : Json
  pub usage : Usage
  pub stop_reason : String

-- Message.__post_init__, as a constructor that may raise
unfoldable pub checked_message : Message → Result Message
checked_message m = do
  guard (not (nonempty m.tool_calls && not (m.role == "assistant"))) value_error
  ok m

-- ModelResponse.to_message
unfoldable pub to_message : ModelResponse → Message
to_message r = record {
  role = "assistant";
  content = r.text;
  tool_call_id = null;
  tool_calls = r.tool_calls;
}

unfoldable pub tool_call_payload : ToolCall → Json
tool_call_payload c =
    object (("id", str c.id) ∷ ("name", str c.name) ∷ ("arguments", obj c.arguments) ∷ [])

unfoldable pub tool_calls_to_payload : List ToolCall → Json
unfolding tool_call_payload
tool_calls_to_payload calls = array (map tool_call_payload calls)

-- item[k] = v, for a key that the item does not have, unless v is None
unfoldable pub id_item : Json → Dict → Dict
id_item null rest = rest
id_item v rest = field "tool_call_id" v rest

unfoldable pub calls_item : List ToolCall → Dict
calls_item [] = end
calls_item (c ∷ cs) = field "tool_calls" (tool_calls_to_payload (c ∷ cs)) end

-- one message of `messages_to_payload`
unfoldable pub message_payload : Message → Dict
unfolding id_item calls_item
message_payload m =
    field "role" (str m.role)
      (field "content" (str m.content) (id_item m.tool_call_id (calls_item m.tool_calls)))

unfoldable pub messages_to_payload : List Message → List Json
unfolding message_payload
messages_to_payload ms = map (λ m. obj (message_payload m)) ms

unfoldable pub request_to_payload : ModelRequest → Dict
unfolding messages_to_payload
request_to_payload r = dict (
    ("messages", array (messages_to_payload r.messages))
    ∷ ("tools", strings (map (λ t. t.name) r.tools))
    ∷ ("response_schema", r.response_schema)
    ∷ ("max_tokens", int r.max_tokens)
    ∷ [])

unfoldable pub response_to_payload : ModelResponse → Dict
unfolding tool_calls_to_payload
response_to_payload r = dict (
    ("text", str r.text)
    ∷ ("tool_calls", tool_calls_to_payload r.tool_calls)
    ∷ ("structured_output", r.structured_output)
    ∷ (
      "usage",
      object (
          ("input_tokens", int r.usage.input_tokens)
          ∷ ("output_tokens", int r.usage.output_tokens)
          ∷ []),
    )
    ∷ ("stop_reason", str r.stop_reason)
    ∷ [])

module _ (py : Builtins) where
  unfoldable pub tool_call : Json → Result ToolCall
  tool_call c = do
    id ← index_any c "id"
    name ← index_any c "name"
    raw ← get_or_any c "arguments" (object [])
    arguments ← as_dict py raw
    ok (record { id = as_str py id; name = as_str py name; arguments = arguments })

  unfoldable pub tool_calls_from_payload : Json → Result (List ToolCall)
  tool_calls_from_payload payload = do calls ← iterate payload; traverse tool_call calls

  unfoldable pub message : Json → Result Message
  message item = do
    role ← index_any item "role"
    content ← index_any item "content"
    tool_call_id ← get_any item "tool_call_id"
    raw ← get_or_any item "tool_calls" (array [])
    tool_calls ← tool_calls_from_payload raw
    checked_message (record {
      role = as_str py role;
      content = as_str py content;
      tool_call_id = tool_call_id;
      tool_calls = tool_calls;
    })

  unfoldable pub messages_from_payload : List Json → Result (List Message)
  unfolding message
  messages_from_payload payload = traverse message payload

  unfoldable pub response_from_payload : Dict → Result ModelResponse
  response_from_payload payload = do
    let usage = get_or payload "usage" (object [])
    tool_calls ← tool_calls_from_payload (get_or payload "tool_calls" (array []))
    raw_input ← get_or_any usage "input_tokens" (int (pos 0))
    input_tokens ← as_int py raw_input
    raw_output ← get_or_any usage "output_tokens" (int (pos 0))
    output_tokens ← as_int py raw_output
    ok (record {
      text = as_str py (get_or payload "text" (str ""));
      tool_calls = tool_calls;
      structured_output = get payload "structured_output";
      usage = record { input_tokens = input_tokens; output_tokens = output_tokens };
      stop_reason = as_str py (get_or payload "stop_reason" (str "end_turn"));
    })
