-- ===== src/Integrations/GitHub/Transport.antt =====
-- Which failures of the live transport are retryable, and what it sends.
use ai_native_sweng.Prelude.{
  ℕ, ◌≤◌, String, Bool, true, false, ◌≡◌, ◌⊎◌, inl, inr, ◌↔◌, refl, Result, ok, err, Error,
  integration_error, ◌>>=◌, ◌==◌, arith, Bool-cases,
}
use ai_native_sweng.Json.Value.{Dict, Float}
use ai_native_sweng.Integrations.LocalDouble.{IntegrationRequest, IntegrationResponse}
use ai_native_sweng.Integrations.GitHub.{
  Opened, opened, http_error, timed_out, url_error, other_error, HttpRequest, LiveHttpTransport,
  is_retryable, http_request, response_of, live_send,
}

-- an error of the integration that says that it is retryable
abbrev pub is_retryable_error : Error → Bool
is_retryable_error (integration_error retryable) = retryable
is_retryable_error _ = false

unfoldable pub fails_retryably : {A : Type 0} → Result A → Bool
fails_retryably (ok a) = false
fails_retryably (err e) = is_retryable_error e

-- What passes by itself: too many requests, a failure of the server, or no answer.
unfoldable pub IsPassing : Opened → Type 0
IsPassing (opened status body) = ⊥
IsPassing (http_error code) = (code ≡ 429) ⊎ (500 ≤ code)
IsPassing timed_out = Unit
IsPassing url_error = Unit
IsPassing (other_error e) = ⊥

is_retryable_iff : (code : ℕ) → (is_retryable code ≡ true) ↔ ((code ≡ 429) ⊎ (500 ≤ code))
unfolding is_retryable
is_retryable_iff code = ((λ h. ground arith), (λ h. ground arith))

abbrev answer_with : String → ℕ → Dict → IntegrationResponse
answer_with action status d = record { action = action; status = status; data_of = d }

module _ (dumps : Dict → String) (loads : String → Result Dict)
    (calm : (t : String) → fails_retryably (loads t) ≡ false) where
  opened-calm :
      (action body : String) (status : ℕ)
      → fails_retryably (response_of dumps loads action (opened status body)) ≡ false
  unfolding response_of fails_retryably
  opened-calm action body status = elim (Bool-cases (body == "")) [
    | inl empty ↦ rw empty refl
    | inr full ↦ rw full (bound (loads body) (calm body))
  ]
    where
      bound :
          (m : Result Dict)
          → fails_retryably m ≡ false
          → fails_retryably (m >>= λ d. ok (answer_with action status d)) ≡ false
      bound (ok d) h = refl
      bound (err e) h = h

  response_of-retryable :
      (action : String) (o : Opened)
      → ((e : Error) → o ≡ other_error e → is_retryable_error e ≡ false)
      → (fails_retryably (response_of dumps loads action o) ≡ true) ↔ IsPassing o
  unfolding response_of fails_retryably IsPassing
  response_of-retryable action (opened status body) h =
      ((λ e. ground (arith, opened-calm action body status, e)), (λ t. absurd t))
  response_of-retryable action (http_error code) h = is_retryable_iff code
  response_of-retryable action timed_out h = ((λ e. tt), (λ t. refl))
  response_of-retryable action url_error h = ((λ e. tt), (λ t. refl))
  response_of-retryable action (other_error e) h =
      ((λ p. ground (arith, h e refl, p)), (λ t. absurd t))

  -- What the live transport raises is retryable exactly when the failure passes by itself: the
  -- request timed out or did not get through, or the status is 429 or 500 and above. Here reading the
  -- answer's JSON raises nothing retryable, and neither does the call outside its documented
  -- exceptions.
  pub live_send-retryable :
      (urlopen : HttpRequest → Float → Opened) (t : LiveHttpTransport)
      (request : IntegrationRequest)
      → ((e : Error)
          → urlopen (http_request dumps loads t request) t.timeout ≡ other_error e
          → is_retryable_error e ≡ false)
      → (fails_retryably (live_send dumps loads urlopen t request) ≡ true)
        ↔ IsPassing (urlopen (http_request dumps loads t request) t.timeout)
  unfolding live_send
  live_send-retryable urlopen t request h =
      response_of-retryable request.action (urlopen (http_request dumps loads t request) t.timeout)
        h
