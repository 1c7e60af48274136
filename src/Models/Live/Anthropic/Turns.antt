-- ===== src/Models/Live/Anthropic/Turns.antt =====
-- What the provider requires of the messages: all results that answer one turn share one message.
use ai_native_sweng.Prelude.{
  String, List, [], ◌∷◌, ◌++◌, ◌≡◌, refl, join, ◌==◌, arith, ap, sym, ◌∙◌, if◌then◌else◌,
  append_assoc, append-nil,
}
use ai_native_sweng.Json.Value.{Dict}
use ai_native_sweng.Models.Types.{Message}
use ai_native_sweng.Models.Live.Anthropic.{
  WireMessage, results, blocks, plain, result_block, add_result, wire_of, Split, split_message,
  split_from, split_messages,
}

-- the system messages' texts
unfoldable pub system_texts : List Message → List String
system_texts [] = []
system_texts (m ∷ ms) = if m.role == "system" then m.content ∷ system_texts ms else system_texts ms

-- A result before the messages that follow joins the results that they start with.
unfoldable pub before_results : Dict → List WireMessage → List WireMessage
before_results block (results bs ∷ rest) = results (block ∷ bs) ∷ rest
before_results block ws = results (block ∷ []) ∷ ws

-- The messages as they are meant: system messages left out, and each longest run of tool results in
-- one message.
unfoldable pub turns : List Message → List WireMessage
turns [] = []
turns (m ∷ ms) =
    if m.role == "system"
    then turns ms
    else if m.role == "tool"
    then before_results (result_block m) (turns ms)
    else wire_of m ∷ turns ms

-- the message `w` at the end of the messages that a conversation has become
extend : Message → List WireMessage → List WireMessage
extend m ws =
    if m.role == "system"
    then ws
    else if m.role == "tool"
    then add_result (result_block m) ws
    else ws ++ wire_of m ∷ []

add_result-before_results :
    (a b : Dict) (ws : List WireMessage)
    → add_result a (before_results b ws) ≡ before_results b (add_result a ws)
unfolding add_result before_results
add_result-before_results a b [] = refl
add_result-before_results a b (results bs ∷ []) = refl
add_result-before_results a b (results bs ∷ v ∷ rest) = refl
add_result-before_results a b (blocks bs ∷ []) = refl
add_result-before_results a b (blocks bs ∷ v ∷ rest) = refl
add_result-before_results a b (plain r c ∷ []) = refl
add_result-before_results a b (plain r c ∷ v ∷ rest) = refl

add_result-wire_of :
    (a : Dict) (m : Message) (ws : List WireMessage)
    → add_result a (wire_of m ∷ ws) ≡ wire_of m ∷ add_result a ws
unfolding add_result wire_of
add_result-wire_of a m [] = ground arith
add_result-wire_of a m (v ∷ rest) = ground arith

append-before_results :
    (b : Dict) (ws : List WireMessage) (m : Message)
    → before_results b ws ++ wire_of m ∷ [] ≡ before_results b (ws ++ wire_of m ∷ [])
unfolding before_results wire_of
append-before_results b [] m = ground arith
append-before_results b (results bs ∷ rest) m = refl
append-before_results b (blocks bs ∷ rest) m = refl
append-before_results b (plain r c ∷ rest) m = refl

before_results-extend :
    (b : Dict) (m : Message) (ws : List WireMessage)
    → before_results b (extend m ws) ≡ extend m (before_results b ws)
unfolding extend
before_results-extend b m ws =
    ground (arith, add_result-before_results (result_block m) b ws, append-before_results b ws m)

wire_of-extend :
    (x m : Message) (ws : List WireMessage) → wire_of x ∷ extend m ws ≡ extend m (wire_of x ∷ ws)
unfolding extend
wire_of-extend x m ws = ground (arith, add_result-wire_of (result_block m) x ws)

turns-one : (m : Message) → turns (m ∷ []) ≡ extend m []
unfolding turns extend add_result before_results
turns-one m = ground arith

-- The conversation that goes on by one message.
turns-snoc : (ms : List Message) (m : Message) → turns (ms ++ m ∷ []) ≡ extend m (turns ms)
unfolding turns
turns-snoc [] m = turns-one m
turns-snoc (x ∷ ms) m = ground (
  arith,
  turns-snoc ms m,
  before_results-extend (result_block x) m (turns ms),
  wire_of-extend x m (turns ms),
)

system_texts-snoc :
    (ms : List Message) (m : Message)
    → system_texts (ms ++ m ∷ [])
      ≡ (if m.role == "system" then system_texts ms ++ m.content ∷ [] else system_texts ms)
unfolding system_texts
system_texts-snoc [] m = ground arith
system_texts-snoc (x ∷ ms) m = ground (arith, system_texts-snoc ms m)

-- What the loop has after the messages `ms`.
after : List Message → Split
after ms = record { system_parts = system_texts ms; wire = turns ms }

split_message-after :
    (ms : List Message) (m : Message) → split_message m (after ms) ≡ after (ms ++ m ∷ [])
unfolding split_message after extend
split_message-after ms m = ground (arith, turns-snoc ms m, system_texts-snoc ms m)

split_from-after : (done ms : List Message) → split_from (after done) ms ≡ after (done ++ ms)
unfolding split_from
split_from-after done [] = ap after (sym (append-nil done))
split_from-after done (m ∷ ms) =
    ap (λ s. split_from s ms) (split_message-after done m)
    ∙ (split_from-after (done ++ m ∷ []) ms ∙ ap after (append_assoc done (m ∷ []) ms))

-- The loop, which changes the last message in place, sends what is meant: the system messages'
-- texts apart, joined in order, and of the others each longest run of tool results in one message,
-- in order, also across a system message.
pub split_messages-turns :
    (ms : List Message) → split_messages ms ≡ (join "\n\n" (system_texts ms), turns ms)
unfolding split_messages after system_texts turns
split_messages-turns ms =
    ap (λ (s : Split). (join "\n\n" s.system_parts, s.wire)) (split_from-after [] ms)
