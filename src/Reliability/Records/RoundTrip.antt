-- ===== src/Reliability/Records/RoundTrip.antt =====
-- Failure records and retry decisions are read back as they were written.
use ai_native_sweng.Prelude.{◌≡◌, refl, ok}
use ai_native_sweng.Json.Convert.{Builtins, optional_int, optional_float, reading}
use ai_native_sweng.Reliability.Records.{
  FailureRecord, RetryDecision, RetryMode, same_input, revised_context, replan, fallback_model,
  escalate, mode_value, retry_mode, failure_payload, failure_record, decision_payload,
  retry_decision,
}

pub retry_mode-mode_value : (x : RetryMode) → retry_mode (mode_value x) ≡ ok x
unfolding retry_mode
retry_mode-mode_value same_input = refl
retry_mode-mode_value revised_context = refl
retry_mode-mode_value replan = refl
retry_mode-mode_value fallback_model = refl
retry_mode-mode_value escalate = refl

module _ (py : Builtins) where
  -- A failure record is read back from its payload unchanged: the description that the payload also
  -- carries is derived, and is not read.
  pub failure_record-failure_payload :
      (r : FailureRecord) → failure_record py (failure_payload r) ≡ ok r
  unfolding failure_record failure_payload reading
  failure_record-failure_payload r = refl

  -- A retry decision is read back from its payload unchanged, its optional fields included.
  pub retry_decision-decision_payload :
      (r : RetryDecision) → retry_decision py (decision_payload r) ≡ ok r
  unfolding retry_decision decision_payload reading
  retry_decision-decision_payload r =
      simp (retry_mode-mode_value r.mode, optional_int py, optional_float py)
