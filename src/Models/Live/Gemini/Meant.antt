-- ===== src/Models/Live/Gemini/Meant.antt =====
-- What the contents sent to Gemini are meant to be, told from the list of the messages: a tool result
-- stands under the name of the last call before it with its id, found among all calls so far.
use ai_native_sweng.Prelude.{
  String, Option, some, none, List, [], ◌∷◌, ◌++◌, ◌≡◌, refl, sym, ap, ◌∙◌, ◌==◌, map,
  if◌then◌else◌, arith,
}
use ai_native_sweng.Models.Types.{Message, ToolCall}
use ai_native_sweng.Models.Live.Gemini.{
  Part, text_part, function_call, function_response, Content, name_of, id_text, text_parts,
  with_names, content_of, names_after, response_part,
}

abbrev pub Names : Type 0
Names = List (String × String)

-- the calls that a message makes
unfoldable pub calls_of : Message → List ToolCall
calls_of m = if m.role == "assistant" then m.tool_calls else []

unfoldable pub later_or : Option String → Option String → Option String
later_or (some name) earlier = some name
later_or none earlier = earlier

-- the name of the last of the calls that has the id
unfoldable pub last_named : String → List ToolCall → Option String
unfolding later_or
last_named id [] = none
last_named id (c ∷ cs) = later_or (last_named id cs) (if c.id == id then some c.name else none)

unfoldable pub or_tool : Option String → String
or_tool (some name) = name
or_tool none = "tool"

-- a tool result after these calls
unfoldable pub result_after : List ToolCall → Message → Part
unfolding last_named or_tool
result_after calls m =
    function_response (or_tool (last_named (id_text m.tool_call_id) calls)) m.content

-- What a message says: its text, and if it makes calls, these, and its text only where it has some.
unfoldable pub said_parts : String → List ToolCall → List Part
said_parts content [] = text_part content ∷ []
said_parts content (c ∷ cs) =
    (if content == "" then [] else text_part content ∷ [])
    ++ map (λ k. function_call k.name k.arguments) (c ∷ cs)

unfoldable pub said : Message → Content
unfolding said_parts calls_of
said m = record {
  role = if m.role == "assistant" then "model" else "user";
  parts = said_parts m.content (calls_of m);
}

abbrev pub user : List Part → Content
user parts = record { role = "user"; parts = parts }

-- the contents that start with these responses
unfoldable pub flushed : List Part × List Content → List Content
flushed ([], rest) = rest
flushed (p ∷ ps, rest) = user (p ∷ ps) ∷ rest

-- A message before the results and contents that follow it, `after` where it makes calls known.
unfoldable pub meant_before :
    List ToolCall → Message → (later after : List Part × List Content) → List Part × List Content
unfolding flushed result_after said
meant_before calls m later after =
    if m.role == "system"
    then later
    else if m.role == "tool"
    then (result_after calls m ∷ later.0, later.1)
    else ([], said m ∷ flushed after)

-- After these calls: the results that the messages start with (system messages aside), and the
-- contents after them, each longest run of tool results in one.
unfoldable pub meant : List ToolCall → List Message → List Part × List Content
unfolding meant_before calls_of
meant calls [] = ([], [])
meant calls (m ∷ ms) = meant_before calls m (meant calls ms) (meant (calls ++ calls_of m) ms)

-- The names say what the calls do.
pub Reads : Names → List ToolCall → Type 0
Reads names calls = (id : String) → name_of names id ≡ or_tool (last_named id calls)

or_before : Option String → String → String
or_before (some name) earlier = name
or_before none earlier = earlier

name_of-with_names :
    (cs : List ToolCall) (names : Names) (id : String)
    → name_of (with_names cs names) id ≡ or_before (last_named id cs) (name_of names id)
unfolding with_names last_named or_before name_of later_or
name_of-with_names [] names id = refl
name_of-with_names (c ∷ cs) names id =
    ground (arith, name_of-with_names cs ((c.id, c.name) ∷ names) id)

later_or_assoc : (a b c : Option String) → later_or (later_or a b) c ≡ later_or a (later_or b c)
unfolding later_or
later_or_assoc (some name) b c = refl
later_or_assoc none b c = refl

last_named-append :
    (id : String) (calls cs : List ToolCall)
    → last_named id (calls ++ cs) ≡ later_or (last_named id cs) (last_named id calls)
unfolding last_named later_or
last_named-append id [] cs = elim (last_named id cs) as (λ o. o ≡ later_or o none) [
  | some name ↦ refl
  | none ↦ refl
]
last_named-append id (c ∷ calls) cs =
    let own = if c.id == id then some c.name else none in
    ap (λ o. later_or o own) (last_named-append id calls cs)
    ∙ later_or_assoc (last_named id cs) (last_named id calls) own

or_tool-later_or : (a b : Option String) → or_tool (later_or a b) ≡ or_before a (or_tool b)
unfolding or_tool later_or or_before
or_tool-later_or (some name) b = refl
or_tool-later_or none b = refl

names_after-with_names :
    (m : Message) (names : Names) → names_after m names ≡ with_names (calls_of m) names
unfolding names_after with_names calls_of
names_after-with_names m names = by_calls m.tool_calls refl
  where
    by_calls :
        (cs : List ToolCall)
        → m.tool_calls ≡ cs
        → names_after m names ≡ with_names (calls_of m) names
    by_calls [] e = rw e (ground arith)
    by_calls (c ∷ cs) e = rw e (ground arith)

pub names_after-Reads :
    (m : Message) (names : Names) (calls : List ToolCall)
    → Reads names calls
    → Reads (names_after m names) (calls ++ calls_of m)
unfolding Reads
names_after-Reads m names calls h id =
    ap (λ ns. name_of ns id) (names_after-with_names m names)
    ∙ (name_of-with_names (calls_of m) names id
        ∙ (ap (or_before (last_named id (calls_of m))) (h id)
            ∙ (sym (or_tool-later_or (last_named id (calls_of m)) (last_named id calls))
                ∙ ap or_tool (sym (last_named-append id calls (calls_of m))))))

pub response_part-result_after :
    (m : Message) (names : Names) (calls : List ToolCall)
    → Reads names calls
    → response_part names m ≡ result_after calls m
unfolding Reads response_part result_after
response_part-result_after m names calls h =
    ap (λ name. function_response name m.content) (h (id_text m.tool_call_id))

pub content_of-said : (m : Message) → content_of m ≡ said m
unfolding content_of said said_parts calls_of text_parts
content_of-said m = by_calls m.tool_calls refl
  where
    by_calls : (cs : List ToolCall) → m.tool_calls ≡ cs → content_of m ≡ said m
    by_calls [] e = ground (arith, e)
    by_calls (c ∷ cs) e = ground (arith, e)

pub nothing_called : Reads [] []
unfolding Reads name_of last_named or_tool
nothing_called id = refl
