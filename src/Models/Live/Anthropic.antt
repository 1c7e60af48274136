-- ===== src/Models/Live/Anthropic.antt =====
-- src/anse_harness/models/live_anthropic.py: `_split_messages`.
pub mod Adapter
pub mod Failures
pub mod Turns
use ai_native_sweng.Prelude.{
  String, List, [], ◌∷◌, ◌++◌, map, join, nonempty, ◌&&◌, ◌==◌, if◌then◌else◌,
}
use ai_native_sweng.Json.Value.{str, obj, Dict, dict, array}
use ai_native_sweng.Models.Types.{Message, ToolCall}

-- A message on the wire: a user message that collects tool results, an assistant message of blocks,
-- or a message with a text.
pub data WireMessage : Type 0 where
  results : List Dict → WireMessage
  blocks : List Dict → WireMessage
  plain : (role content : String) → WireMessage

-- the dict that such a message is
unfoldable pub wire_payload : WireMessage → Dict
wire_payload (results bs) = dict (("role", str "user") ∷ ("content", array (map obj bs)) ∷ [])
wire_payload (blocks bs) = dict (("role", str "assistant") ∷ ("content", array (map obj bs)) ∷ [])
wire_payload (plain role content) = dict (("role", str role) ∷ ("content", str content) ∷ [])

unfoldable pub result_block : Message → Dict
result_block m = dict (
    ("type", str "tool_result") ∷ ("tool_use_id", m.tool_call_id) ∷ ("content", str m.content) ∷ [])

unfoldable pub text_blocks : String → List Dict
text_blocks content =
    if content == "" then [] else dict (("type", str "text") ∷ ("text", str content) ∷ []) ∷ []

unfoldable pub call_block : ToolCall → Dict
call_block c = dict (
    ("type", str "tool_use")
    ∷ ("id", str c.id)
    ∷ ("name", str c.name)
    ∷ ("input", obj c.arguments)
    ∷ [])

-- The block joins the last message, if that collects tool results.
unfoldable pub add_result : Dict → List WireMessage → List WireMessage
add_result block [] = results (block ∷ []) ∷ []
add_result block (results bs ∷ []) = results (bs ++ block ∷ []) ∷ []
add_result block (w ∷ []) = w ∷ results (block ∷ []) ∷ []
add_result block (w ∷ v ∷ rest) = w ∷ add_result block (v ∷ rest)

-- a message that is neither a system message nor a tool result
unfoldable pub wire_of : Message → WireMessage
unfolding text_blocks call_block
wire_of m =
    if m.role == "assistant" && nonempty m.tool_calls
    then blocks (text_blocks m.content ++ map call_block m.tool_calls)
    else plain m.role m.content

pub record Split : Type 0 where
  pub system_parts : List String
  pub wire : List WireMessage

-- one round of the loop
unfoldable pub split_message : Message → Split → Split
unfolding result_block
split_message m s =
    if m.role == "system"
    then record s { system_parts = s.system_parts ++ m.content ∷ [] }
    else if m.role == "tool"
    then record s { wire = add_result (result_block m) s.wire }
    else record s { wire = s.wire ++ wire_of m ∷ [] }

unfoldable pub split_from : Split → List Message → Split
split_from s [] = s
split_from s (m ∷ ms) = split_from (split_message m s) ms

-- _split_messages
unfoldable pub split_messages : List Message → String × List WireMessage
unfolding join split_from
split_messages ms =
    let s = split_from (record { system_parts = []; wire = [] }) ms in
    (join "\n\n" s.system_parts, s.wire)
