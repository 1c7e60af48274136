-- ===== src/Models/Live/Gemini/Contents.antt =====
-- The function responses to one turn share one content, under the names of their calls.
use mathlib.Core.Path.{ap₂}
use ai_native_sweng.Prelude.{
  String, Bool, true, false, List, [], ◌∷◌, ◌++◌, ◌≡◌, refl, sym, ap, ◌∙◌, ◌==◌, if◌then◌else◌,
  append_assoc, append-nil, arith, join,
}
use ai_native_sweng.Models.Types.{Message, ToolCall}
use ai_native_sweng.Models.Live.Gemini.{
  Part, Content, Wire, response_part, add_part, content_of, names_after, add_message, add_messages,
  to_contents,
}
use ai_native_sweng.Models.Live.Gemini.Meant.{
  Names, user, flushed, meant, meant_before, calls_of, Reads, names_after-Reads,
  response_part-result_after, content_of-said, nothing_called,
}
use ai_native_sweng.Models.Live.Anthropic.Turns.{system_texts}

-- What the loop gathers from the messages, with the names that it keeps.
before : Names → Message → (later after : List Part × List Content) → List Part × List Content
unfolding flushed
before names m later after =
    if m.role == "system"
    then later
    else if m.role == "tool"
    then (response_part names m ∷ later.0, later.1)
    else ([], content_of m ∷ flushed after)

gathered : Names → List Message → List Part × List Content
unfolding before
gathered names [] = ([], [])
gathered names (m ∷ ms) = before names m (gathered names ms) (gathered (names_after m names) ms)

abbrev wire_at : List String → List Content → Names → Bool → Wire
wire_at system cs names collecting = record {
  system_parts = system;
  contents = cs;
  call_names = names;
  collecting = collecting;
}

add_part-last :
    (p : Part) (xs : List Content) (ps : List Part)
    → add_part p (xs ++ user ps ∷ []) ≡ xs ++ user (ps ++ p ∷ []) ∷ []
unfolding add_part
add_part-last p [] ps = refl
add_part-last p (x ∷ []) ps = refl
add_part-last p (x ∷ y ∷ xs) ps = rw (add_part-last p (y ∷ xs) ps) refl

-- What the loop makes of the messages, while it collects responses and while it does not.
Sends : List Message → Type 0
Sends ms =
    ((system : List String) (names : Names) (xs : List Content) (ps : List Part)
      → (add_messages ms (wire_at system (xs ++ user ps ∷ []) names true)).contents
        ≡ xs ++ user (ps ++ (gathered names ms).0) ∷ (gathered names ms).1)
    × ((system : List String) (names : Names) (cs : List Content)
        → (add_messages ms (wire_at system cs names false)).contents
          ≡ cs ++ flushed (gathered names ms))

sends : (ms : List Message) → Sends ms
unfolding Sends add_messages gathered flushed add_message before
sends [] =
    ((λ system names xs ps. rw (append-nil ps) refl), (λ system names cs. sym (append-nil cs)))
sends (m ∷ ms) = (
  (λ system names xs ps.
      let p = response_part names m in
      ground (
        arith,
        (sends ms).0 (system ++ m.content ∷ []) names xs ps,
        (sends ms).0 system names xs (ps ++ p ∷ []),
        (sends ms).1 system (names_after m names) ((xs ++ user ps ∷ []) ++ content_of m ∷ []),
        add_part-last p xs ps,
        append_assoc ps (p ∷ []) (gathered names ms).0,
        append-nil ps,
        append_assoc (xs ++ user ps ∷ []) (content_of m ∷ [])
            (flushed (gathered (names_after m names) ms)),
        append_assoc xs (user ps ∷ []) (content_of m ∷ flushed (gathered (names_after m names) ms)),
      )),
  (λ system names cs.
      let p = response_part names m in
      ground (
        arith,
        (sends ms).1 (system ++ m.content ∷ []) names cs,
        (sends ms).0 system names cs (p ∷ []),
        (sends ms).1 system (names_after m names) (cs ++ content_of m ∷ []),
        append_assoc cs (content_of m ∷ []) (flushed (gathered (names_after m names) ms)),
      )),
)

system_parts-add_messages :
    (ms : List Message) (w : Wire)
    → (add_messages ms w).system_parts ≡ w.system_parts ++ system_texts ms
unfolding add_messages add_message system_texts
system_parts-add_messages [] w = sym (append-nil w.system_parts)
system_parts-add_messages (m ∷ ms) w = ground (
  arith,
  system_parts-add_messages ms (add_message m w),
  append_assoc w.system_parts (m.content ∷ []) (system_texts ms),
)

gathered-meant :
    (ms : List Message) (names : Names) (calls : List ToolCall)
    → Reads names calls
    → gathered names ms ≡ meant calls ms
unfolding gathered before meant meant_before
gathered-meant [] names calls h = refl
gathered-meant (m ∷ ms) names calls h =
    rw
      (
        gathered-meant ms names calls h,
        gathered-meant ms (names_after m names) (calls ++ calls_of m)
            (names_after-Reads m names calls h),
        response_part-result_after m names calls h,
        content_of-said m,
      )
      refl

-- The loop, which keeps the content that collects function responses and changes it in place, sends
-- what is meant: the system messages' texts apart, joined in order, and of the others each longest
-- run of tool results in one content, in order, also across a system message, each result under the
-- name of the last call of an assistant before it that has its id, or "tool" if there is none; any
-- other message in a content of its own, an assistant's as the model's and with its calls.
pub to_contents-meant :
    (ms : List Message) → to_contents ms ≡ (join "\n\n" (system_texts ms), flushed (meant [] ms))
unfolding to_contents Sends
to_contents-meant ms =
    ap₂ (λ system cs. (join "\n\n" system, cs))
      (system_parts-add_messages ms (wire_at [] [] [] false))
      ((sends ms).1 [] [] [] ∙ ap flushed (gathered-meant ms [] [] nothing_called))
