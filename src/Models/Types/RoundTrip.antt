-- ===== src/Models/Types/RoundTrip.antt =====
-- Messages and responses are read back as they were written.
use ai_native_sweng.Prelude.{List, [], ◌∷◌, ◌≡◌, refl, ok, All, traverse, traverse-map, arith}
use ai_native_sweng.Json.Value.{Json, null, obj, items, items_list-items, array}
use ai_native_sweng.Json.Convert.{Builtins, reading}
use ai_native_sweng.Models.Types.{
  ToolCall, Message, ModelResponse, checked_message, to_message, tool_call_payload,
  tool_calls_to_payload, calls_item, message_payload, messages_to_payload, response_to_payload,
  tool_call, tool_calls_from_payload, message, messages_from_payload, response_from_payload,
}

module _ (py : Builtins) where
  tool_call-tool_call_payload : (c : ToolCall) → tool_call py (tool_call_payload c) ≡ ok c
  unfolding tool_call tool_call_payload reading
  tool_call-tool_call_payload c = refl

  tool_calls : (cs : List ToolCall) → tool_calls_from_payload py (tool_calls_to_payload cs) ≡ ok cs
  unfolding tool_calls_from_payload tool_calls_to_payload reading
  tool_calls cs =
      simp (
        items_list-items,
        traverse-map (tool_call py) tool_call_payload tool_call-tool_call_payload,
      )

  -- A response is read back from its payload unchanged, its tool calls and usage included.
  pub response_from_payload-response_to_payload :
      (r : ModelResponse) → response_from_payload py (response_to_payload r) ≡ ok r
  unfolding response_from_payload response_to_payload reading
  response_from_payload-response_to_payload r = simp (tool_calls r.tool_calls)

  no_tool_calls : tool_calls_from_payload py (array []) ≡ ok []
  unfolding tool_calls_from_payload reading traverse items
  no_tool_calls = refl

  message-message_payload : (m : Message) → message py (obj (message_payload m)) ≡ checked_message m
  unfolding message message_payload calls_item reading
  message-message_payload m = by_items m.tool_call_id m.tool_calls
    where
      by_items :
          (t : Json) (cs : List ToolCall)
          → message py (obj (message_payload (record m { tool_call_id = t; tool_calls = cs })))
            ≡ checked_message (record m { tool_call_id = t; tool_calls = cs })
      by_items null [] = simp no_tool_calls
      by_items null (c ∷ cs) = simp (tool_calls (c ∷ cs))
      by_items _ [] = simp no_tool_calls
      by_items _ (c ∷ cs) = simp (tool_calls (c ∷ cs))

  -- A conversation whose messages their constructor accepts is read back from its payload unchanged:
  -- the items that the writer leaves out are read as absent.
  pub messages_from_payload-messages_to_payload :
      (ms : List Message)
      → All (λ m. checked_message m ≡ ok m) ms
      → messages_from_payload py (messages_to_payload ms) ≡ ok ms
  unfolding messages_from_payload messages_to_payload traverse
  messages_from_payload-messages_to_payload [] h = refl
  messages_from_payload-messages_to_payload (m ∷ ms) h =
      rw (message-message_payload m, h.0, messages_from_payload-messages_to_payload ms h.1)

-- The message that a response becomes is one that its constructor accepts, with the response's text
-- and tool calls.
pub checked_message-to_message :
    (r : ModelResponse) → checked_message (to_message r) ≡ ok (to_message r)
unfolding checked_message to_message
checked_message-to_message r = ground arith
