-- ===== src/Models/Live/Anthropic/Failures.antt =====
-- Which failures of AnthropicAdapter.complete are retryable.
use ai_native_sweng.Prelude.{String, true, false, ◌≡◌, ◌↔◌, refl, Result, Error, concat}
use ai_native_sweng.Json.Value.{Json, Dict}
use ai_native_sweng.Models.Types.{ModelRequest}
use ai_native_sweng.Models.Errors.{Sent, other_error}
use ai_native_sweng.Models.Errors.Retry.{
  says_retryable, raises_retryable, IsTransient, raises_retryable-normalized, IsCalm, bind-IsCalm,
}
use ai_native_sweng.Models.Live.{structured_of, structured_of-calm}
use ai_native_sweng.Models.Live.Anthropic.Adapter.{
  Answer, create_arguments, read_blocks, read_answer, anthropic_complete,
}

module _ (loads : String → Result Json) (calm : (t : String) → IsCalm (loads t)) where
  read_answer-IsCalm :
      (request : ModelRequest) (answer : Answer) → IsCalm (read_answer loads request answer)
  unfolding read_answer IsCalm raises_retryable
  read_answer-IsCalm request answer =
      bind-IsCalm
        (structured_of loads request.response_schema (concat (read_blocks answer.content).0)) _
        (structured_of-calm loads calm request.response_schema
          (concat (read_blocks answer.content).0))
        (λ s. refl)

  -- What AnthropicAdapter.complete raises is retryable exactly when the failure passes by itself:
  -- the request timed out, there was no connection, or the status is 408, 409, 429 or 500 and above.
  -- Here the JSON parser raises nothing retryable, and neither does the SDK outside its documented
  -- exceptions.
  pub anthropic_complete-retryable :
      (create : Dict → Sent Answer) (model : String) (request : ModelRequest)
      → ((e : Error)
          → create (create_arguments model request) ≡ other_error e
          → says_retryable e ≡ false)
      → (raises_retryable (anthropic_complete loads create model request) ≡ true)
        ↔ IsTransient (create (create_arguments model request))
  unfolding anthropic_complete IsCalm
  anthropic_complete-retryable create model request quiet =
      raises_retryable-normalized (create (create_arguments model request))
        (read_answer loads request) (read_answer-IsCalm request) quiet
