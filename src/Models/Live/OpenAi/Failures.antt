-- ===== src/Models/Live/OpenAi/Failures.antt =====
-- Which failures of OpenAIAdapter.complete are retryable.
use ai_native_sweng.Prelude.{
  String, true, false, List, [], ◌∷◌, ◌≡◌, ◌↔◌, refl, Result, Error, traverse,
}
use ai_native_sweng.Json.Value.{Json, Dict}
use ai_native_sweng.Models.Types.{ModelRequest}
use ai_native_sweng.Models.Errors.{Sent, other_error}
use ai_native_sweng.Models.Errors.Retry.{
  says_retryable, raises_retryable, IsTransient, raises_retryable-normalized, IsCalm, bind-IsCalm,
  traverse-IsCalm,
}
use ai_native_sweng.Models.Live.{or_else, structured_of, structured_of-calm}
use ai_native_sweng.Models.Live.OpenAi.{
  Choice, Completion, first_choice, read_call, read_completion, openai_complete,
  completion_arguments,
}

first_choice-IsCalm : (cs : List Choice) → IsCalm (first_choice cs)
unfolding first_choice IsCalm raises_retryable
first_choice-IsCalm [] = refl
first_choice-IsCalm (c ∷ cs) = refl

module _ (loads : String → Result Json) (as_arguments : Json → Dict)
    (calm : (t : String) → IsCalm (loads t)) where
  read_completion-IsCalm :
      (request : ModelRequest) (response : Completion)
      → IsCalm (read_completion loads as_arguments request response)
  unfolding read_completion read_call IsCalm raises_retryable
  read_completion-IsCalm request response =
      bind-IsCalm (first_choice response.choices) _ (first_choice-IsCalm response.choices)
        (λ choice.
          bind-IsCalm (traverse (read_call loads as_arguments) choice.tool_calls) _
            (traverse-IsCalm (read_call loads as_arguments)
              (λ c. bind-IsCalm (loads c.arguments) _ (calm c.arguments) (λ a. refl))
              choice.tool_calls)
            (λ calls.
              bind-IsCalm (structured_of loads request.response_schema (or_else choice.content ""))
                _
                (structured_of-calm loads calm request.response_schema (or_else choice.content ""))
                (λ s. refl)))

  -- What OpenAIAdapter.complete raises is retryable exactly when the failure passes by itself: the
  -- request timed out, there was no connection, or the status is 408, 409, 429 or 500 and above.
  -- Here the JSON parser raises nothing retryable, and neither does the SDK outside its documented
  -- exceptions.
  pub openai_complete-retryable :
      (dumps : Dict → String) (create : Dict → Sent Completion) (model : String)
      (request : ModelRequest)
      → ((e : Error)
          → create (completion_arguments dumps model request) ≡ other_error e
          → says_retryable e ≡ false)
      → (raises_retryable (openai_complete loads as_arguments dumps create model request) ≡ true)
        ↔ IsTransient (create (completion_arguments dumps model request))
  unfolding openai_complete IsCalm
  openai_complete-retryable dumps create model request quiet =
      raises_retryable-normalized (create (completion_arguments dumps model request))
        (read_completion loads as_arguments request) (read_completion-IsCalm request) quiet
