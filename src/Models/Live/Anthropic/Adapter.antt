-- ===== src/Models/Live/Anthropic/Adapter.antt =====
-- src/anse_harness/models/live_anthropic.py: AnthropicAdapter.complete. `client.messages.create` and
-- `json.loads` are arguments.
use ai_native_sweng.Prelude.{
  String, Option, List, [], ◌∷◌, ◌++◌, not, ◌==◌, nonempty, map, concat, if◌then◌else◌, Result, ok,
  ◌>>=◌,
}
use ai_native_sweng.Json.Value.{ℤ, Json, int, float, str, obj, Dict, dict, object, array}
use ai_native_sweng.Models.Types.{ToolCall, ToolSpec, ModelRequest, ModelResponse}
use ai_native_sweng.Models.Errors.{Sent, normalized}
use ai_native_sweng.Models.Live.{is_none, or_else, structured_of}
use ai_native_sweng.Models.Live.Anthropic.{wire_payload, split_messages}

-- a block of the answer's content
pub data Block : Type 0 where
  text_block : (text : String) → Block
  tool_use : (id name : String) (input : Dict) → Block
  other_block : Block

pub record Answer : Type 0 where
  pub content : List Block
  pub input_tokens : ℤ
  pub output_tokens : ℤ
  -- a str or `None`
  pub stop_reason : Option String

unfoldable pub tool_entry : ToolSpec → Json
tool_entry t = object (
    ("name", str t.name)
    ∷ ("description", str t.description)
    ∷ ("input_schema", obj t.input_schema)
    ∷ [])

-- the keyword arguments of `create`
unfoldable pub create_arguments : String → ModelRequest → Dict
unfolding tool_entry wire_payload
create_arguments model request =
    let (system, messages) = split_messages request.messages in
    dict (
      (("model", str model)
        ∷ ("max_tokens", int request.max_tokens)
        ∷ ("messages", array (map (λ w. obj (wire_payload w)) messages))
        ∷ ("timeout", float request.timeout_seconds)
        ∷ [])
      ++ (if not (system == "") then ("system", str system) ∷ [] else [])
      ++ (if nonempty request.tools
          then ("tools", array (map tool_entry request.tools)) ∷ []
          else [])
      ++ (if is_none request.response_schema
          then []
          else (
            "output_config",
            object (
                (
                  "format",
                  object (("type", str "json_schema") ∷ ("schema", request.response_schema) ∷ []),
                )
                ∷ []),
          )
            ∷ []))

-- the loop over the blocks: the text parts and the tool calls, in order
unfoldable pub read_blocks : List Block → List String × List ToolCall
read_blocks [] = ([], [])
read_blocks (text_block text ∷ rest) =
    let (texts, calls) = read_blocks rest in (text ∷ texts, calls)
read_blocks (tool_use id name input ∷ rest) =
    let (texts, calls) = read_blocks rest in
    (texts, record { id = id; name = name; arguments = input } ∷ calls)
read_blocks (other_block ∷ rest) = read_blocks rest

module _ (loads : String → Result Json) where
  -- what `complete` makes of an answer
  unfoldable pub read_answer : ModelRequest → Answer → Result ModelResponse
  unfolding read_blocks concat structured_of
  read_answer request answer =
      let (texts, calls) = read_blocks answer.content in
      let text = concat texts in
      do
        structured ← structured_of loads request.response_schema text
        ok (record {
          text = text;
          tool_calls = calls;
          structured_output = structured;
          usage = record {
            input_tokens = answer.input_tokens;
            output_tokens = answer.output_tokens;
          };
          stop_reason = or_else answer.stop_reason "end_turn";
        })

  unfoldable pub anthropic_complete :
      (create : Dict → Sent Answer) → String → ModelRequest → Result ModelResponse
  unfolding normalized read_answer
  anthropic_complete create model request = do
    answer ← normalized (create (create_arguments model request))
    read_answer request answer
