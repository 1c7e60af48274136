-- ===== src/Reliability/Injection/Failures.antt =====
-- An injected failure names the injection as its provider and is otherwise what the Anthropic and the
-- OpenAI adapters raise.
use ai_native_sweng.Prelude.{
  String, true, ◌≡◌, refl, ok, err, contains, ◌==◌, inl, inr, arith, Bool-cases, eq_iff, sym, ◌∙◌,
  if◌then◌else◌,
}
use ai_native_sweng.Json.Value.{Dict}
use ai_native_sweng.Json.Convert.{Builtins, reading}
use ai_native_sweng.Models.Errors.{
  ProviderError, error_of, model_timeout, Sent, api_timeout, api_status, normalized,
  classify_retryable_status,
}
use ai_native_sweng.Reliability.Injection.{
  InjectionSpec, injection_failure_kinds, checked_spec, spec_payload, injection_spec,
  injection_error,
}

module _ (py : Builtins) where
  injection_spec-spec_payload :
      (s : InjectionSpec) → injection_spec py (spec_payload s) ≡ checked_spec s
  unfolding injection_spec spec_payload reading
  injection_spec-spec_payload s = refl

  checked_idem : (s t : InjectionSpec) → checked_spec s ≡ ok t → checked_spec t ≡ ok t
  unfolding checked_spec
  checked_idem s t h = ground arith

eq_turned : (s t : String) → (s == t) ≡ true → (t == s) ≡ true
eq_turned s t h = (eq_iff t s).1 (sym ((eq_iff s t).0 h))

-- What the SDK does when the failure of this kind comes from the provider.
unfoldable pub sdk_failure {ℓ} : {A : Type ℓ} → String → Sent A
sdk_failure kind =
    if kind == "model_timeout"
    then api_timeout
    else if kind == "provider_error_retryable"
    then api_status 500
    else api_status 400

-- The injected failure, but for its message and provider, is what the handlers make of it.
IsLive : String → Type 0
IsLive kind =
    (e : ProviderError) × (injection_error kind ≡ ok e)
    × (e.provider ≡ "injected")
    × (normalized {A = String} (sdk_failure kind) ≡ err (error_of e))

kind-IsLive : (kind : String) → contains injection_failure_kinds kind ≡ true → IsLive kind
unfolding IsLive contains injection_error normalized sdk_failure classify_retryable_status error_of
    model_timeout
kind-IsLive kind h = elim (Bool-cases (kind == "model_timeout")) [
  | inl timeout ↦ rw timeout (_, refl, refl, refl)
  | inr other ↦ rw other (elim (Bool-cases (kind == "provider_error_retryable")) [
    | inl retryable ↦ rw retryable (_, refl, refl, refl)
    | inr last ↦ rw last (elim (Bool-cases (kind == "provider_error_permanent")) [
      | inl permanent ↦ rw permanent (_, refl, refl, refl)
      | inr none_left ↦ absurd (
          ground (
            arith,
            h,
            eq_turned "model_timeout" kind,
            eq_turned "provider_error_retryable" kind,
            eq_turned "provider_error_permanent" kind,
            other,
            last,
            none_left,
          ))
    ])
  ])
]

module _ (py : Builtins) where
  checked-injection_spec :
      (d : Dict) (s : InjectionSpec) → injection_spec py d ≡ ok s → checked_spec s ≡ ok s
  unfolding injection_spec
  checked-injection_spec d s h = grind (arith, checked_idem py)

  known_failure :
      (s : InjectionSpec)
      → checked_spec s ≡ ok s
      → contains injection_failure_kinds s.failure ≡ true
  unfolding checked_spec
  known_failure s h = ground arith

  -- A specification that is accepted is read back from its payload, and the failure that it injects
  -- is built, with the provider "injected"; but for its message and its provider it is what the
  -- handlers that the Anthropic and the OpenAI adapters share raise when the provider does not answer
  -- in time, or answers with status 500, which is retryable, or 400, which is not.
  pub injection_spec_lem :
      (d : Dict) (s : InjectionSpec)
      → injection_spec py d ≡ ok s
      → (injection_spec py (spec_payload s) ≡ ok s)
        × ((e : ProviderError) × (injection_error s.failure ≡ ok e)
            × (e.provider ≡ "injected")
            × (normalized {A = String} (sdk_failure s.failure) ≡ err (error_of e)))
  unfolding IsLive
  injection_spec_lem d s h =
      let checked = checked-injection_spec d s h in
      (injection_spec-spec_payload py s ∙ checked, kind-IsLive s.failure (known_failure s checked))
