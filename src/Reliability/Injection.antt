-- ===== src/Reliability/Injection.antt =====
-- src/anse_harness/reliability/injection.py: the injection specification and the failures that it
-- stands for. Reading and writing files is left out.
pub mod Failures
use ai_native_sweng.Prelude.{
  zero, suc, String, Bool, true, false, some, List, [], ◌∷◌, Result, ok, err, value_error, contains,
  guard, ◌>>=◌, ◌>>◌, ◌==◌, if◌then◌else◌,
}
use ai_native_sweng.Json.Value.{ℤ, pos, negsuc, int, str, Dict, dict}
use ai_native_sweng.Models.Errors.{ProviderError, model_timeout}
use ai_native_sweng.Json.Convert.{Builtins, index, get_or, as_str, as_int}

abbrev pub injection_failure_kinds : List String
injection_failure_kinds =
    "model_timeout" ∷ "provider_error_retryable" ∷ "provider_error_permanent" ∷ []

pub record InjectionSpec : Type 0 where
  pub at_call : ℤ
  pub failure : String
  pub boundary : String

-- n < 1
abbrev pub below_one : ℤ → Bool
below_one (pos zero) = true
below_one (pos (suc n)) = false
below_one (negsuc n) = true

-- InjectionSpec.__post_init__, as a constructor that may raise
unfoldable pub checked_spec : InjectionSpec → Result InjectionSpec
unfolding contains
checked_spec s = if below_one s.at_call then err value_error else (do
  guard (contains injection_failure_kinds s.failure) value_error
  guard (s.boundary == "model") value_error
  ok s)

-- InjectionSpec.to_payload
unfoldable pub spec_payload : InjectionSpec → Dict
spec_payload s =
    dict
      (("boundary", str s.boundary) ∷ ("at_call", int s.at_call) ∷ ("failure", str s.failure) ∷ [])

-- InjectionSpec.from_payload
module _ (py : Builtins) where
  unfoldable pub injection_spec : Dict → Result InjectionSpec
  injection_spec d = do
    at_call_raw ← index d "at_call"
    at_call ← as_int py at_call_raw
    failure_raw ← index d "failure"
    checked_spec (record {
      at_call = at_call;
      failure = as_str py failure_raw;
      boundary = as_str py (get_or d "boundary" (str "model"));
    })

-- injection_error: the error that it builds, or the ValueError that it raises
unfoldable pub injection_error : String → Result ProviderError
unfolding model_timeout
injection_error kind =
    if kind == "model_timeout"
    then ok (model_timeout "injected: request timed out" "injected")
    else if kind == "provider_error_retryable"
    then ok (record {
      message = "injected: internal server error";
      provider = "injected";
      retryable = true;
      status_code = some 500;
      timed_out = false;
    })
    else if kind == "provider_error_permanent"
    then ok (record {
      message = "injected: invalid request";
      provider = "injected";
      retryable = false;
      status_code = some 400;
      timed_out = false;
    })
    else err value_error
