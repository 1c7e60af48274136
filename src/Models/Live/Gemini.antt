-- ===== src/Models/Live/Gemini.antt =====
-- src/anse_harness/models/live_gemini.py: `_to_contents`. The SDK's parts and contents are data.
pub mod Contents
pub mod Meant
pub mod Adapter
pub mod Failures
use ai_native_sweng.Prelude.{
  String, Bool, true, false, List, [], ◌∷◌, ◌++◌, ◌==◌, ◌&&◌, map, join, nonempty, if◌then◌else◌,
}
use ai_native_sweng.Json.Value.{Json, str, Dict}
use ai_native_sweng.Models.Types.{Message, ToolCall}

pub data Part : Type 0 where
  text_part : (text : String) → Part
  function_call : (name : String) (args : Dict) → Part
  function_response : (name result : String) → Part

pub record Content : Type 0 where
  pub role : String
  pub parts : List Part

-- `call_names`: the last assignment to a key is in front
unfoldable pub name_of : List (String × String) → String → String
name_of [] id = "tool"
name_of ((k, name) ∷ names) id = if k == id then name else name_of names id

-- m.tool_call_id or "", for a str or `None`
unfoldable pub id_text : Json → String
id_text (str s) = s
id_text _ = ""

unfoldable pub text_parts : String → List Part
text_parts content = if content == "" then [] else text_part content ∷ []

-- the names after the calls of a message, in order
unfoldable pub with_names : List ToolCall → List (String × String) → List (String × String)
with_names [] names = names
with_names (c ∷ cs) names = with_names cs ((c.id, c.name) ∷ names)

-- the content of a message that is neither a system message nor a tool result
unfoldable pub content_of : Message → Content
unfolding text_parts
content_of m =
    if m.role == "assistant" && nonempty m.tool_calls
    then record {
      role = "model";
      parts = text_parts m.content ++ map (λ c. function_call c.name c.arguments) m.tool_calls;
    }
    else record {
      role = if m.role == "assistant" then "model" else "user";
      parts = text_part m.content ∷ [];
    }

unfoldable pub names_after : Message → List (String × String) → List (String × String)
unfolding with_names
names_after m names =
    if m.role == "assistant" && nonempty m.tool_calls then with_names m.tool_calls names else names

-- `collecting` is whether `tool_turn` is set. It is then the last of the contents: while it is set,
-- nothing is appended to them.
pub record Wire : Type 0 where
  pub system_parts : List String
  pub contents : List Content
  pub call_names : List (String × String)
  pub collecting : Bool

-- tool_turn.parts.append(part), on the last of the contents
unfoldable pub add_part : Part → List Content → List Content
add_part part [] = []
add_part part (c ∷ []) = record c { parts = c.parts ++ part ∷ [] } ∷ []
add_part part (c ∷ d ∷ rest) = c ∷ add_part part (d ∷ rest)

unfoldable pub response_part : List (String × String) → Message → Part
unfolding name_of id_text
response_part names m = function_response (name_of names (id_text m.tool_call_id)) m.content

-- one round of the loop
unfoldable pub add_message : Message → Wire → Wire
unfolding response_part add_part content_of names_after
add_message m w =
    if m.role == "system"
    then record w { system_parts = w.system_parts ++ m.content ∷ [] }
    else if m.role == "tool"
    then record w {
      contents =
          if w.collecting
          then add_part (response_part w.call_names m) w.contents
          else w.contents
            ++ record { role = "user"; parts = response_part w.call_names m ∷ [] } ∷ [];
      collecting = true;
    }
    else record w {
      contents = w.contents ++ content_of m ∷ [];
      call_names = names_after m w.call_names;
      collecting = false;
    }

unfoldable pub add_messages : List Message → Wire → Wire
unfolding add_message
add_messages [] w = w
add_messages (m ∷ ms) w = add_messages ms (add_message m w)

-- _to_contents
unfoldable pub to_contents : List Message → String × List Content
unfolding add_messages join
to_contents ms =
    let w =
      add_messages ms
        (record { system_parts = []; contents = []; call_names = []; collecting = false }) in
    (join "\n\n" w.system_parts, w.contents)
