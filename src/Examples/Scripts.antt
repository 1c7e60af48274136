-- ===== src/Examples/Scripts.antt =====
-- A script with one step, and requests of the live adapters.
use ai_native_sweng.Prelude.{ℕ, some}
use ai_native_sweng.Json.Value.{ℤ, pos}
use ai_native_sweng.Models.Live.Gemini.{Content, to_contents}
use ai_native_sweng.Models.Live.Gemini.Contents.{to_contents-meant}
use ai_native_sweng.Models.Live.Gemini.Meant.{meant, flushed}
use ai_native_sweng.Models.Live.Gemini.Adapter.{GenerateConfig, Called, api_error}
use ai_native_sweng.Prelude.{
  String, List, [], ◌∷◌, ◌++◌, ◌≡◌, ◌↔◌, refl, ok, err, Result, true, map, join, arith,
  script_exhausted_error, replay_exhausted_error, json_decode_error, is_in,
}
use ai_native_sweng.Json.Value.{Json, null, str, Dict, dict}
use ai_native_sweng.Models.Types.{Message, ModelResponse, messages_to_payload, to_message}
use ai_native_sweng.Models.Calls.{outcomes}
use ai_native_sweng.Models.Replay.{ReplayAdapter, replay_adapter, complete}
use ai_native_sweng.Models.Replay.Pairing.{trace, HaveDistinctIds}
use ai_native_sweng.Models.Scripted.{scripted_complete, meets, last_content}
use ai_native_sweng.Models.Scripted.Recording.{Take, script_at, step_of, scripted-replay}
use ai_native_sweng.Models.Errors.{Sent, api_status}
use ai_native_sweng.Models.Errors.Retry.{raises_retryable, IsTransient, IsCalm}
use ai_native_sweng.Models.Live.Anthropic.{split_messages}
use ai_native_sweng.Models.Live.Anthropic.Turns.{system_texts, turns, split_messages-turns}
use ai_native_sweng.Models.Live.Anthropic.Adapter.{Answer, create_arguments, anthropic_complete}
use ai_native_sweng.Models.Live.Anthropic.Failures.{anthropic_complete-retryable}
use ai_native_sweng.Models.Live.OpenAi.{Completion, completion_arguments, openai_complete}
use ai_native_sweng.Models.Live.OpenAi.Failures.{openai_complete-retryable}
use ai_native_sweng.Examples.Boundary.{strict}
use ai_native_sweng.Examples.Conversations.{exchange, question, response, as_long}

abbrev takes : List Take
takes = record { exchange = exchange; expect_substring = str "Fix" } ∷ []

scripted-replay_example :
    (responses : List (Result ModelResponse)) × (a : ReplayAdapter) × (replay_adapter strict
        (trace (exchange ∷ []))
      ≡ ok a)
    × (outcomes scripted_complete
          (exchange.request ∷ exchange.request ∷ [])
          (script_at (map step_of takes) 0)
        ≡ responses ++ err script_exhausted_error ∷ [])
    × (outcomes (complete as_long) (exchange.request ∷ exchange.request ∷ []) a
        ≡ responses ++ err replay_exhausted_error ∷ [])
unfolding HaveDistinctIds messages_to_payload meets last_content is_in
scripted-replay_example =
    scripted-replay as_long strict takes exchange.request (refl, tt) (tt, tt) (refl, tt)

abbrev said : String → String → Message
said role content = record { role = role; content = content; tool_call_id = null; tool_calls = [] }

-- a turn with two results
abbrev conversation : List Message
conversation =
    said "system" "You fix bugs"
    ∷ question
    ∷ to_message response
    ∷ said "tool" "a"
    ∷ said "tool" "b"
    ∷ []

split_messages-turns_example :
    split_messages conversation ≡ (join "\n\n" (system_texts conversation), turns conversation)
split_messages-turns_example = split_messages-turns conversation

-- a parser that reads nothing
abbrev unread : String → Result Json
unread text = err json_decode_error

unread-IsCalm : (t : String) → IsCalm (unread t)
unfolding IsCalm raises_retryable
unread-IsCalm t = refl

abbrev overloaded : {A : Type 0} → Dict → Sent A
overloaded request = api_status 529

anthropic_complete-retryable_example :
    (raises_retryable (anthropic_complete unread overloaded "m-1" exchange.request) ≡ true)
    ↔ IsTransient (overloaded {A = Answer} (create_arguments "m-1" exchange.request))
anthropic_complete-retryable_example =
    anthropic_complete-retryable unread unread-IsCalm overloaded "m-1" exchange.request
      (λ e h. ground (arith, h))

openai_complete-retryable_example :
    (raises_retryable
        (openai_complete unread (λ j. dict []) (λ d. "{}") overloaded "m-1" exchange.request)
      ≡ true)
    ↔ IsTransient
        (overloaded {A = Completion} (completion_arguments (λ d. "{}") "m-1" exchange.request))
openai_complete-retryable_example =
    openai_complete-retryable unread (λ j. dict []) unread-IsCalm (λ d. "{}") overloaded "m-1"
      exchange.request (λ e h. ground (arith, h))

to_contents-meant_example :
    to_contents conversation
    ≡ (join "\n\n" (system_texts conversation), flushed (meant [] conversation))
to_contents-meant_example = to_contents-meant conversation

abbrev quota : String → List Content → GenerateConfig → Called
quota model contents config = api_error (some 429)

abbrev thirty_seconds : ℕ → ℤ
thirty_seconds timeout = pos 30000
