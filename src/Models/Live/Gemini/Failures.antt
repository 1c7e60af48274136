-- ===== src/Models/Live/Gemini/Failures.antt =====
-- Which failures of GeminiAdapter.complete are retryable.
use ai_native_sweng.Prelude.{
  ℕ, String, true, false, none, some, List, ◌≡◌, ◌↔◌, refl, Result, Error, ◌>>=◌, ◌⊎◌, ◌≤◌, arith,
}
use ai_native_sweng.Json.Value.{ℤ, Json, Float}
use ai_native_sweng.Models.Types.{ModelRequest}
use ai_native_sweng.Models.Errors.{classify_retryable_status}
use ai_native_sweng.Models.Errors.Retry.{
  says_retryable, raises_retryable, classify_retryable_status_iff, IsCalm, bind-IsCalm,
}
use ai_native_sweng.Models.Live.{or_else, structured_of, structured_of-calm}
use ai_native_sweng.Models.Live.Gemini.{Content, to_contents}
use ai_native_sweng.Models.Live.Gemini.Adapter.{
  GenerateConfig, Generated, Called, generated, api_error, other_failure, status_of,
  generate_config, answer_or_raise, read_generated, gemini_complete,
}

-- An API error whose code is that of a failure that passes by itself.
unfoldable pub IsPassing : Called → Type 0
IsPassing (generated g) = ⊥
IsPassing (api_error none) = ⊥
IsPassing (api_error (some code)) = (code ≡ 408) ⊎ (code ≡ 409) ⊎ (code ≡ 429) ⊎ (500 ≤ code)
IsPassing (other_failure e) = ⊥

-- the call of the SDK that `complete` makes
abbrev pub called :
    (String → List Content → GenerateConfig → Called) → (Float → ℤ) → String → ModelRequest → Called
called generate milliseconds model request =
    generate model (to_contents request.messages).1
      (generate_config milliseconds (to_contents request.messages).0 request)

module _ (loads : String → Result Json) (fresh : ℕ → String)
    (calm : (t : String) → IsCalm (loads t)) where
  read_generated-IsCalm :
      (request : ModelRequest) (g : Generated) → IsCalm (read_generated loads fresh request g)
  unfolding read_generated IsCalm raises_retryable
  read_generated-IsCalm request g =
      bind-IsCalm (structured_of loads request.response_schema (or_else g.text "")) _
        (structured_of-calm loads calm request.response_schema (or_else g.text "")) (λ s. refl)

  retryable_iff :
      (request : ModelRequest) (c : Called)
      → ((e : Error) → c ≡ other_failure e → says_retryable e ≡ false)
      → (raises_retryable (answer_or_raise c >>= read_generated loads fresh request) ≡ true)
        ↔ IsPassing c
  unfolding answer_or_raise status_of raises_retryable IsPassing classify_retryable_status IsCalm
  retryable_iff request (generated g) h =
      ((λ e. ground (arith, read_generated-IsCalm request g, e)), (λ t. absurd t))
  retryable_iff request (api_error none) h = ((λ e. ground (arith, e)), (λ t. absurd t))
  retryable_iff request (api_error (some code)) h = classify_retryable_status_iff code
  retryable_iff request (other_failure e) h = ((λ p. ground (arith, h e refl, p)), (λ t. absurd t))

  -- What GeminiAdapter.complete raises is retryable exactly when the SDK raises an API error whose
  -- code is 408, 409, 429 or 500 and above; an API error without a code is not. Here the JSON parser
  -- raises nothing retryable, and neither does the SDK outside its API errors.
  pub gemini_complete-retryable :
      (generate : String → List Content → GenerateConfig → Called) (milliseconds : Float → ℤ)
      (model : String) (request : ModelRequest)
      → ((e : Error)
          → called generate milliseconds model request ≡ other_failure e
          → says_retryable e ≡ false)
      → (raises_retryable (gemini_complete loads fresh generate milliseconds model request) ≡ true)
        ↔ IsPassing (called generate milliseconds model request)
  unfolding gemini_complete
  gemini_complete-retryable generate milliseconds model request h =
      retryable_iff request (called generate milliseconds model request) h
