-- ===== src/Models/Errors.antt =====
-- src/anse_harness/models/errors.py: which failures of a provider may be tried again, and what the
-- live adapters make of the exceptions of a provider's SDK.
pub mod Retry
use ai_native_sweng.Prelude.{
  ℕ, String, Bool, true, Option, none, if◌then◌else◌, some, ◌||◌, eqb, leb, Result, ok, err, Error,
  provider_error, model_timeout_error,
}

-- classify_retryable_status, with RETRYABLE_STATUS_CODES
unfoldable pub classify_retryable_status : ℕ → Bool
classify_retryable_status status_code =
    eqb status_code 408 || eqb status_code 409 || eqb status_code 429 || leb 500 status_code

-- `ProviderError`, with its message; `timed_out` where it is its subclass `ModelTimeoutError`.
pub record ProviderError : Type 0 where
  pub message : String
  pub provider : String
  pub retryable : Bool
  pub status_code : Option ℕ
  pub timed_out : Bool

-- ModelTimeoutError
unfoldable pub model_timeout : String → String → ProviderError
model_timeout message provider = record {
  message = message;
  provider = provider;
  retryable = true;
  status_code = none;
  timed_out = true;
}

-- the error without its message and the name of the provider
unfoldable pub error_of : ProviderError → Error
error_of e = if e.timed_out then model_timeout_error else provider_error e.retryable e.status_code

-- What a call of the SDK does: it returns an answer, or raises APITimeoutError, APIStatusError,
-- APIConnectionError (not a timeout, which is a connection error too), or anything else.
pub data Sent {ℓ} (A : Type ℓ) : Type ℓ where
  answered : A → Sent A
  api_timeout : Sent A
  api_status : (status_code : ℕ) → Sent A
  api_connection : Sent A
  other_error : Error → Sent A

-- the handlers, which the Anthropic and the OpenAI adapter share word for word but for the
-- provider's name
unfoldable pub normalized {ℓ} : {A : Type ℓ} → Sent A → Result A
unfolding classify_retryable_status
normalized (answered a) = ok a
normalized api_timeout = err model_timeout_error
normalized (api_status code) = err (provider_error (classify_retryable_status code) (some code))
normalized api_connection = err (provider_error true none)
normalized (other_error e) = err e
